-- ===== src/Books/Refinement.antt =====
-- payment-service is such a bank.
use settlr.Prelude.{
  ◌≡◌, ◌≢◌, inl, inr, refl, sym, ap, ◌∙◌, subst, Bool, true, false, some, List, [], ◌∷◌, All,
  if◌then◌else◌,
}
use settlr.Errors.{app, fault, Result, ok, err}
use settlr.Database.{TransactionRow, Tables}
use settlr.Database.Accounts.{HasUniqueIds}
use settlr.Payment.{PaymentParams, FraudResult, PaymentResult, Platform}
use settlr.Payment.Transfer.{transfer}
use settlr.Payment.Transfer.Posting.{transfer-conserves}
use settlr.Payment.Initiate.{State, initiate_payment}
use settlr.Payment.Initiate.Atomic.{Posts, Ends}
use settlr.Payment.Initiate.Outcome.{initiate_payment-Ends}
use settlr.Books.{balance_of, IsDistinct, serve_payments}
use settlr.Books.Transfer.{transfer-parties}
use settlr.Books.Bank.{Bank, Same, Moved, Serves, Trace, closed, served, answers}

abbrev pub bank : Tables → Bank
bank t i = balance_of i t

module _ (p : Platform) (q : PaymentParams) (distinct : IsDistinct p q) (t : Tables)
    (unique : HasUniqueIds t.accounts) where
  -- What the bank of the tables does, and that ids stay unique.
  abbrev Refines : Result PaymentResult → Tables → Type 0
  Refines r t' = Serves p q r (bank t) (bank t') × HasUniqueIds t'.accounts

  transfer-Moved :
      (fraud : FraudResult) (row : TransactionRow)
      → (transfer p q fraud t).0 ≡ ok row
      → Moved p q (bank t) (bank (transfer p q fraud t).1)
        × HasUniqueIds (transfer p q fraud t).1.accounts
  unfolding balance_of
  transfer-Moved fraud row returned =
      let x = transfer-parties p q fraud t row returned in
      let apart : x.f ≢ x.g = λ e. distinct (x.reads_f ∙ ap some e ∙ sym x.reads_g) in
      let c =
        transfer-conserves p q fraud x.f x.g x.reads_f x.reads_g t x.sender x.recipient unique
          x.has_sender x.has_recipient apart returned in
      (
        record {
          sender = x.f;
          recipient = x.g;
          reads_sender = x.reads_f;
          reads_recipient = x.reads_g;
          apart = apart;
          enough = rw x.has_sender c.0;
          debited = rw (c.1, x.has_sender) refl;
          credited = rw (c.2, x.has_recipient) refl;
          others = λ i d d'. rw (c.3 i d d') refl;
        },
        c.5,
      )

  Posts-Moved :
      (row : TransactionRow) (t' : Tables)
      → Posts p q t row t'
      → Moved p q (bank t) (bank t') × HasUniqueIds t'.accounts
  Posts-Moved row t' (fraud, free, returned, e) =
      subst (λ u. Moved p q (bank t) (bank u) × HasUniqueIds u.accounts) (sym e)
        (transfer-Moved fraud row returned)

  kept-Same : (t' : Tables) → t' ≡ t → Same (bank t) (bank t') × HasUniqueIds t'.accounts
  kept-Same t' e = (λ i. ap (λ u. bank u i) e, rw e unique)

  Ends-Refines : (r : Result PaymentResult) (t' : Tables) → Ends p q t r t' → Refines r t'
  Ends-Refines (ok r) t' h = answered r.from_cache h
    where
      answered :
          (b : Bool)
          → (if b then t' ≡ t else Posts p q t r.transaction t')
          → (if b then Same (bank t) (bank t') else Moved p q (bank t) (bank t'))
            × HasUniqueIds t'.accounts
      answered true e = kept-Same t' e
      answered false h = Posts-Moved r.transaction t' h
  Ends-Refines (err (app e)) t' h = kept-Same t' h
  Ends-Refines (err (fault e)) t' (inl h) = let k = kept-Same t' h in (inl k.0, k.1)
  Ends-Refines (err (fault e)) t' (inr (_, row, h)) = let k = Posts-Moved row t' h in (inr k.0, k.1)

-- From tables where no account id occurs twice, any list of requests that name two different
-- accounts each, served one after the other, is a trace of the bank of the balances: it ends with
-- the balances of the tables that are reached, and each answer says what happened to them.
pub serve_payments-Trace :
    (p : Platform) (qs : List PaymentParams) (w : State p)
    → All (IsDistinct p) qs
    → HasUniqueIds w.tables.accounts
    → Trace p qs (answers p qs w) (bank w.tables) (bank (serve_payments p qs w).tables)
unfolding serve_payments answers
serve_payments-Trace p [] w h unique = closed
serve_payments-Trace p (q ∷ qs) w (d, h) unique =
    let out = initiate_payment p q w in
    let step =
      Ends-Refines p q d w.tables unique out.0 out.1.tables (initiate_payment-Ends p q w) in
    served step.0 (serve_payments-Trace p qs out.1 h step.1)
