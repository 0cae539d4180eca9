-- ===== src/Redis.antt =====
-- packages/redis/client.ts: the Redis commands that the services send, as an interface, and the
-- functions built on them. Redis itself is not part of the repository: its commands are a
-- parameter, with the documented effect of each command that replies as laws. A key is the template
-- that the source fills in, with its arguments. Between two commands of one call no key expires.
pub mod Contention
pub mod Lock
pub mod Memory
pub mod RateLimit
use settlr.Prelude.{ℕ, ◌≡◌, ◌≢◌, Bool, true, false, Option, none, some, String, text-discrete}
use native.Mathlib.Decide.{ℕ_discrete}
use settlr.Errors.{fault, Fault, Result, ok, err}
use settlr.Action.{Action}

pub data Key : Type 0 where
  account_lock idempotency refresh cache_stats : String → Key
  cache_chart : String → ℕ → Key
  cache_txns cache_ledger : String → ℕ → ℕ → Key

unfoldable pub Key-discrete : Discrete Key
unfolding text-discrete ℕ_discrete
Key-discrete = hlevel (text-discrete, ℕ_discrete)

-- A command that the client may fail to send or to have answered: then it throws.
abbrev pub Command : Type 0 → Type 0 → Type 0
Command S A = S → Option A × S

abbrev pub reply {ℓ} : {S : Type 0} {A : Type ℓ} → Option A × S → Result A × S
reply (some a, s) = (ok a, s)
reply (none, s) = (err (fault Fault.redis_error), s)

-- `await` on a command
abbrev pub command : {S A : Type 0} → Command S A → Action S A
command m s = reply (m s)

-- What a server holds under a key is observed by `value`.
pub record Redis : Type 1 where
  pub Store : Type 0
  pub value : Key → Store → Option String
  pub get : Key → Command Store (Option String)
  pub set_nx : Key → String → ℕ → Command Store Bool
  pub setex : Key → ℕ → String → Command Store (Unit {0})
  pub del : Key → Command Store (Unit {0})
  pub get-value : (k : Key) (s : Store) {v : Option String} → (get k s).0 ≡ some v → v ≡ value k s
  pub get-others : (j k : Key) (s : Store) → value j (get k s).1 ≡ value j s
  pub set_nx-won :
      (k : Key) (v : String) (n : ℕ) (s : Store)
      → (set_nx k v n s).0 ≡ some true
      → (value k s ≡ none) × (value k (set_nx k v n s).1 ≡ some v)
  pub set_nx-lost :
      (j k : Key) (v : String) (n : ℕ) (s : Store)
      → (set_nx k v n s).0 ≡ some false
      → (value k s ≢ none) × (value j (set_nx k v n s).1 ≡ value j s)
  pub set_nx-others :
      (j k : Key) (v : String) (n : ℕ) (s : Store) → j ≢ k → value j (set_nx k v n s).1 ≡ value j s
  pub set_nx-keeps :
      (k : Key) (v : String) (n : ℕ) (s : Store)
      → value k s ≢ none
      → value k (set_nx k v n s).1 ≡ value k s
  pub setex-self :
      (k : Key) (n : ℕ) (v : String) (s : Store)
      → (setex k n v s).0 ≡ some tt
      → value k (setex k n v s).1 ≡ some v
  pub setex-others :
      (j k : Key) (n : ℕ) (v : String) (s : Store) → j ≢ k → value j (setex k n v s).1 ≡ value j s
  pub del-self : (k : Key) (s : Store) → (del k s).0 ≡ some tt → value k (del k s).1 ≡ none
  pub del-others : (j k : Key) (s : Store) → j ≢ k → value j (del k s).1 ≡ value j s
