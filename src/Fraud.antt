-- ===== src/Fraud.antt =====
-- services/fraud-service: what the rules keep in Redis. The commands are a parameter, with their
-- documented effect on a counter and on a set as laws; a key is the template that a rule fills in.
-- No key expires between two calls: the window of a rule is one in which it does not.
pub mod Review
pub mod Rules
pub mod Engine
use settlr.Prelude.{
  ℕ, suc, ◌-◌, ◌<◌, ◌≡◌, not, ◌==◌, Option, some, List, [], ◌∷◌, ◌++◌, true, false, has, String,
  length, drop, keep,
}
use settlr.Redis.{Command}

-- fraud:velocity:<id>, fraud:amounts:<id>, fraud:recipient:<id>
pub data FraudKey : Type 0 where
  velocity amounts recipient : String → FraudKey

-- What the signals are kept in: `counter`, `members` and `range` observe a counter, a set, and the
-- members of a sorted set, whose greatest score is `latest`. ZREMRANGEBYRANK is given -n as n. The
-- members that the source adds to a sorted set are numbers; one that is there already moves.
pub record Signals : Type 1 where
  pub Store : Type 0
  pub counter : FraudKey → Store → ℕ
  pub members : FraudKey → Store → List String
  pub range : FraudKey → Store → List ℕ
  pub latest : FraudKey → Store → ℕ
  pub incr : FraudKey → Command Store ℕ
  pub expire : FraudKey → ℕ → Command Store (Unit {0})
  pub zadd : FraudKey → ℕ → ℕ → Command Store (Unit {0})
  pub zremrangebyrank : FraudKey → ℕ → ℕ → Command Store (Unit {0})
  pub zrange : FraudKey → Command Store (List ℕ)
  pub sadd : FraudKey → String → Command Store (Unit {0})
  pub scard : FraudKey → Command Store ℕ
  pub incr-counter :
      (k : FraudKey) (s : Store) {n : ℕ}
      → (incr k s).0 ≡ some n
      → (n ≡ suc (counter k s)) × (counter k (incr k s).1 ≡ n)
  pub expire-counter :
      (j k : FraudKey) (n : ℕ) (s : Store) → counter j (expire k n s).1 ≡ counter j s
  pub expire-range : (j k : FraudKey) (n : ℕ) (s : Store) → range j (expire k n s).1 ≡ range j s
  pub zadd-latest :
      (k : FraudKey) (t m : ℕ) (s : Store)
      → (zadd k t m s).0 ≡ some tt
      → latest k s < t
      → range k (zadd k t m s).1 ≡ keep (λ x. not (x == m)) (range k s) ++ (m ∷ [])
  pub zremrangebyrank-range :
      (k : FraudKey) (n : ℕ) (s : Store)
      → (zremrangebyrank k 0 n s).0 ≡ some tt
      → range k (zremrangebyrank k 0 n s).1 ≡ drop (suc (length (range k s)) - n) (range k s)
  pub zrange-range :
      (k : FraudKey) (s : Store) {xs : List ℕ} → (zrange k s).0 ≡ some xs → xs ≡ range k s
  pub expire-members :
      (j k : FraudKey) (n : ℕ) (s : Store) → members j (expire k n s).1 ≡ members j s
  pub sadd-again :
      (k : FraudKey) (v : String) (s : Store)
      → has v (members k s) ≡ true
      → members k (sadd k v s).1 ≡ members k s
  pub sadd-new :
      (k : FraudKey) (v : String) (s : Store)
      → (sadd k v s).0 ≡ some tt
      → has v (members k s) ≡ false
      → length (members k (sadd k v s).1) ≡ suc (length (members k s))
  pub scard-others : (j k : FraudKey) (s : Store) → members j (scard k s).1 ≡ members j s
  pub scard-members :
      (k : FraudKey) (s : Store) {n : ℕ} → (scard k s).0 ≡ some n → n ≡ length (members k s)
