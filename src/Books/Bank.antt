-- ===== src/Books/Bank.antt =====
-- The promise of payment-service to its clients, without rows, locks, versions, caches and events: a
-- bank is the balance of every account, and a request moves its amount or does nothing.
use settlr.Prelude.{ℕ, ◌+◌, ◌-◌, ◌≤◌, ◌≡◌, ◌≢◌, ◌⊎◌, some, List, [], ◌∷◌, String, if◌then◌else◌}
use settlr.Errors.{app, fault, Result, ok, err}
use settlr.Payment.{PaymentParams, PaymentResult, Platform}
use settlr.Payment.Initiate.{State, initiate_payment}

abbrev pub Bank : Type 0
Bank = String → ℕ

abbrev pub Same : Bank → Bank → Type 0
Same b b' = (i : String) → b' i ≡ b i

-- The sender has the amount, which moves from the sender to the recipient, another account.
pub record Moved (p : Platform) (q : PaymentParams) (b b' : Bank) : Type 0 where
  pub sender : String
  pub recipient : String
  pub reads_sender : p.canon q.from_account_id ≡ some sender
  pub reads_recipient : p.canon q.to_account_id ≡ some recipient
  pub apart : sender ≢ recipient
  pub enough : q.amount ≤ b sender
  pub debited : b' sender ≡ b sender - q.amount
  pub credited : b' recipient ≡ b recipient + q.amount
  pub others : (i : String) → i ≢ sender → i ≢ recipient → b' i ≡ b i

-- What an answer says of the bank: a fresh success moved the amount, a replayed one and an AppError
-- did nothing, and after any other error either is possible.
abbrev pub Serves : Platform → PaymentParams → Result PaymentResult → Bank → Bank → Type 0
Serves p q (ok r) b b' = if r.from_cache then Same b b' else Moved p q b b'
Serves p q (err (app e)) b b' = Same b b'
Serves p q (err (fault e)) b b' = Same b b' ⊎ Moved p q b b'

-- A bank that serves requests one after the other, with what it answers to each.
pub data Trace (p : Platform)
    : List PaymentParams → List (Result PaymentResult) → Bank → Bank → Type 0 where
  closed : {b : Bank} → Trace p [] [] b b
  served :
      {q : PaymentParams} {qs : List PaymentParams} {r : Result PaymentResult}
      {rs : List (Result PaymentResult)} {b m b' : Bank}
      → Serves p q r b m
      → Trace p qs rs m b'
      → Trace p (q ∷ qs) (r ∷ rs) b b'

-- The answers to requests that are served one after the other.
unfoldable pub answers : (p : Platform) → List PaymentParams → State p → List (Result PaymentResult)
answers p [] w = []
answers p (q ∷ qs) w = let out = initiate_payment p q w in out.0 ∷ answers p qs out.1
