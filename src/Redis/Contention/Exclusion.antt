-- ===== src/Redis/Contention/Exclusion.antt =====
-- Two payments never own the lock of an account whose key does not expire.
use settlr.Prelude.{ℕ, ◌≡◌, inl, inr, sym, subst, true, false, String, text-discrete, arith}
use mathlib.Core.Logic.{ite, if_pos}
use native.Mathlib.Decide.{ℕ_discrete}
use settlr.Redis.{Redis}
use settlr.Redis.Contention.{Pc, owns_lock, update, Move, Step, Reach}
use settlr.Redis.Contention.Effects.{Free, Held, Twice, Effect, Move-Effect, acquire_lock-won}

update-both {ℓ} :
    {A : Type ℓ} (P : A → Type 0) (f : ℕ → A) {a : A} (i j : ℕ) → P (f j) → P a → P (update f i a j)
update-both P f {a} i j h k = elim (ℕ_discrete i j) as (λ d. P (ite d a (f j))) [
  | yes _ ↦ k
  | no _ ↦ h
]

module _ (r : Redis) (Fails : Type 0) (Expires : String → Type 0) (ttl : ℕ) (z : String) where
  open r use {Store}

  pub record Inv (s : Store) (pc : ℕ → Pc) : Type 0 where
    pub kept : (i : ℕ) → owns_lock (pc i) z ≡ true → Held r z s
    pub unique : (i j : ℕ) → owns_lock (pc i) z ≡ true → owns_lock (pc j) z ≡ true → i ≡ j
    pub apart : (i : ℕ) → ¬ Twice (pc i) z

  Effect-Inv :
      {s t : Store} {pc : ℕ → Pc} (i : ℕ) (p : Pc)
      → Inv s pc
      → Effect r z s (pc i) t p
      → ¬ Twice p z
      → Inv t (update pc i p)
  Effect-Inv {pc} i p inv (inl (free, held)) a = record {
    kept = λ j. ground (arith, inv.kept j);
    unique = λ j k. ground (arith, inv.kept j, inv.kept k);
    apart = λ j. update-both (λ q. ¬ Twice q z) pc i j (inv.apart j) a;
  }
  Effect-Inv {pc} i p inv (inr (inl (kept, owned))) a = record {
    kept = λ j. ground (arith, inv.kept j, inv.kept i);
    unique = λ j k. ground (arith, inv.unique j k, inv.unique i k, inv.unique j i);
    apart = λ j. update-both (λ q. ¬ Twice q z) pc i j (inv.apart j) a;
  }
  Effect-Inv {pc} i p inv (inr (inr (owned, freed))) a = record {
    kept = λ j. ground (arith, inv.unique i j);
    unique = λ j k. ground (arith, inv.unique j k, inv.unique i k, inv.unique j i);
    apart = λ j. update-both (λ q. ¬ Twice q z) pc i j (inv.apart j) a;
  }

  -- A payment whose accounts are both `z` does not get the second lock.
  Move-apart :
      {s t : Store} {p p' : Pc}
      → (owns_lock p z ≡ true → Held r z s)
      → Move r Fails Expires ttl s p t p'
      → ¬ Twice p' z
  unfolding owns_lock
  Move-apart {s} kept (Move.second_won {x} {y} w) (e, e') =
      kept (if_pos (text-discrete x z) e true false)
        (subst (λ q. Free r q s) e' (acquire_lock-won r y ttl s w).0)
  Move-apart kept _ f = f

  Step-Inv :
      {s t : Store} {pc pc' : ℕ → Pc}
      → ¬ Expires z
      → Step r Fails Expires ttl s pc t pc'
      → Inv s pc
      → Inv t pc'
  Step-Inv lasts (Step.pick i {p} mv) inv =
      Effect-Inv i p inv (Move-Effect r Fails Expires ttl z (inv.apart i) mv)
        (Move-apart (inv.kept i) mv)
  Step-Inv lasts (Step.expire x e gone same) inv = elim (text-discrete z x) [
    | yes eq ↦ absurd (lasts (subst Expires (sym eq) e))
    | no d ↦ record {
      kept = λ i h. rw (same z d) (inv.kept i h);
      unique = inv.unique;
      apart = inv.apart;
    }
  ]
  Step-Inv lasts (Step.elsewhere same) inv = record {
    kept = λ i h. rw (same z) (inv.kept i h);
    unique = inv.unique;
    apart = inv.apart;
  }

  pub Reach-Inv :
      {s : Store} {pc : ℕ → Pc} → ¬ Expires z → Reach r Fails Expires ttl s pc → Inv s pc
  unfolding owns_lock
  Reach-Inv lasts (Reach.start free) = record {
    kept = λ i h. cc;
    unique = λ i j h h'. cc;
    apart = λ i h. h;
  }
  Reach-Inv lasts (Reach.later before st) = Step-Inv lasts st (Reach-Inv lasts before)

  -- However the commands of any number of payments are interleaved, and whether or not commands stay
  -- without a reply and other keys expire, two payments never own the lock of one account whose key
  -- does not expire.
  pub acquire_account_locks-exclude :
      {s : Store} {pc : ℕ → Pc}
      → ¬ Expires z
      → Reach r Fails Expires ttl s pc
      → (i j : ℕ) → owns_lock (pc i) z ≡ true
      → owns_lock (pc j) z ≡ true
      → i ≡ j
  acquire_account_locks-exclude lasts reach = (Reach-Inv lasts reach).unique
