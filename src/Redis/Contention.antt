-- ===== src/Redis/Contention.antt =====
-- packages/redis/client.ts: the account locks of several payments at once, whose Redis commands are
-- interleaved in any order. A payment is a program counter; each of its steps sends one command of
-- acquireAccountLocks or releaseAllLocks. Between two steps a key that may expire may do so, and any
-- other command may run that touches no account lock.
pub mod Alone
pub mod Effects
pub mod Exclusion
pub mod Owners
use settlr.Prelude.{ℕ, ◌≡◌, ◌≢◌, Bool, true, false, none, String, text-discrete}
use mathlib.Core.Logic.{ite}
use native.Mathlib.Decide.{ℕ_discrete}
use settlr.Errors.{Error, ok, err}
use settlr.Redis.{Redis, Key}
use settlr.Redis.Lock.{sorted, acquire_lock, release_lock}

-- Where a payment stands, with its accounts in the order of the locks.
pub data Pc : Type 0 where
  idle : Pc
  first second back inside : (x y : String) → Pc
  leaving : (y : String) → Pc

-- Between the reply of the SET NX that it won and its own DEL, a payment owns the lock.
unfoldable pub owns_lock : Pc → String → Bool
owns_lock idle z = false
owns_lock (first x y) z = false
owns_lock (second x y) z = ite (text-discrete x z) true false
owns_lock (back x y) z = ite (text-discrete x z) true false
owns_lock (inside x y) z = ite (text-discrete x z) true (ite (text-discrete y z) true false)
owns_lock (leaving y) z = ite (text-discrete y z) true false

abbrev pub update {ℓ} : {A : Type ℓ} → (ℕ → A) → ℕ → A → ℕ → A
update f i a j = ite (ℕ_discrete i j) a (f j)

-- Whether commands may fail to be answered, and which accounts' keys may reach their time to live.
module _ (r : Redis) (Fails : Type 0) (Expires : String → Type 0) (ttl : ℕ) where
  open r use {Store, value}

  -- One command of one payment, and what it does with the reply. A command without a reply throws,
  -- and the payment ends without the locks that it would have released later.
  pub data Move (s : Store) : Pc → Store → Pc → Type 0 where
    begin : (a b : String) → Move s idle s (first (sorted a b).0 (sorted a b).1)
    first_won :
        {x y : String}
        → (acquire_lock r (Key.account_lock x) ttl s).0 ≡ ok true
        → Move s (first x y) (acquire_lock r (Key.account_lock x) ttl s).1 (second x y)
    first_lost :
        {x y : String}
        → (acquire_lock r (Key.account_lock x) ttl s).0 ≡ ok false
        → Move s (first x y) (acquire_lock r (Key.account_lock x) ttl s).1 idle
    second_won :
        {x y : String}
        → (acquire_lock r (Key.account_lock y) ttl s).0 ≡ ok true
        → Move s (second x y) (acquire_lock r (Key.account_lock y) ttl s).1 (inside x y)
    second_lost :
        {x y : String}
        → (acquire_lock r (Key.account_lock y) ttl s).0 ≡ ok false
        → Move s (second x y) (acquire_lock r (Key.account_lock y) ttl s).1 (back x y)
    given_back :
        {x y : String}
        → (release_lock r (Key.account_lock x) s).0 ≡ ok tt
        → Move s (back x y) (release_lock r (Key.account_lock x) s).1 idle
    released_first :
        {x y : String}
        → (release_lock r (Key.account_lock x) s).0 ≡ ok tt
        → Move s (inside x y) (release_lock r (Key.account_lock x) s).1 (leaving y)
    released_second :
        {y : String}
        → (release_lock r (Key.account_lock y) s).0 ≡ ok tt
        → Move s (leaving y) (release_lock r (Key.account_lock y) s).1 idle
    first_failed :
        {x y : String} {e : Error}
        → Fails
        → (acquire_lock r (Key.account_lock x) ttl s).0 ≡ err e
        → Move s (first x y) (acquire_lock r (Key.account_lock x) ttl s).1 idle
    second_failed :
        {x y : String} {e : Error}
        → Fails
        → (acquire_lock r (Key.account_lock y) ttl s).0 ≡ err e
        → Move s (second x y) (acquire_lock r (Key.account_lock y) ttl s).1 idle
    back_failed :
        {x y : String} {e : Error}
        → Fails
        → (release_lock r (Key.account_lock x) s).0 ≡ err e
        → Move s (back x y) (release_lock r (Key.account_lock x) s).1 idle
    release_failed :
        {x y : String} {e : Error}
        → Fails
        → (release_lock r (Key.account_lock x) s).0 ≡ err e
        → Move s (inside x y) (release_lock r (Key.account_lock x) s).1 idle
    last_failed :
        {y : String} {e : Error}
        → Fails
        → (release_lock r (Key.account_lock y) s).0 ≡ err e
        → Move s (leaving y) (release_lock r (Key.account_lock y) s).1 idle

  -- Payment `i` is any number: a payment that has ended may begin again with other accounts.
  pub data Step (s : Store) (pc : ℕ → Pc) : Store → (ℕ → Pc) → Type 0 where
    pick : (i : ℕ) {t : Store} {p : Pc} → Move s (pc i) t p → Step s pc t (update pc i p)
    expire :
        (x : String) {t : Store}
        → Expires x
        → value (Key.account_lock x) t ≡ none
        → ((z : String) → z ≢ x → value (Key.account_lock z) t ≡ value (Key.account_lock z) s)
        → Step s pc t pc
    elsewhere :
        {t : Store}
        → ((z : String) → value (Key.account_lock z) t ≡ value (Key.account_lock z) s)
        → Step s pc t pc

  -- From a server without account locks.
  pub data Reach : Store → (ℕ → Pc) → Type 0 where
    start : {s : Store} → ((z : String) → value (Key.account_lock z) s ≡ none) → Reach s (λ _. idle)
    later : {s t : Store} {pc pc' : ℕ → Pc} → Reach s pc → Step s pc t pc' → Reach t pc'
