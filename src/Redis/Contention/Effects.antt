-- ===== src/Redis/Contention/Effects.antt =====
-- What each command of a payment does to the lock of one account.
use settlr.Prelude.{
  ℕ, ◌≡◌, ◌≢◌, ◌⊎◌, inl, inr, refl, sym, true, false, none, String, text-discrete, arith,
}
use mathlib.Core.Logic.{if_pos}
use settlr.Errors.{ok}
use settlr.Redis.{Redis, Key}
use settlr.Redis.Lock.{acquire_lock, release_lock}
use settlr.Redis.Contention.{Pc, owns_lock, Move}

other_lock : {x z : String} → z ≢ x → Key.account_lock z ≢ Key.account_lock x
other_lock d = λ e. d cc

-- The two accounts of a payment that owns both locks are not both `z`.
abbrev pub Twice : Pc → String → Type 0
Twice (Pc.inside x y) z = (x ≡ z) × (y ≡ z)
Twice p z = ⊥

module _ (r : Redis) where
  open r use {
    Store, value, set_nx-won, set_nx-lost, set_nx-others, set_nx-keeps, del-self, del-others,
  }

  abbrev pub Free : String → Store → Type 0
  Free z s = value (Key.account_lock z) s ≡ none

  abbrev pub Held : String → Store → Type 0
  Held z s = value (Key.account_lock z) s ≢ none

  pub acquire_lock-won :
      (x : String) (ttl : ℕ) (s : Store)
      → (acquire_lock r (Key.account_lock x) ttl s).0 ≡ ok true
      → Free x s × Held x (acquire_lock r (Key.account_lock x) ttl s).1
  unfolding acquire_lock
  acquire_lock-won x ttl s h = ground (arith, set_nx-won (Key.account_lock x) "1" ttl s)

  pub acquire_lock-lost :
      (z x : String) (ttl : ℕ) (s : Store)
      → (acquire_lock r (Key.account_lock x) ttl s).0 ≡ ok false
      → Held x s
        × (value (Key.account_lock z) (acquire_lock r (Key.account_lock x) ttl s).1
            ≡ value (Key.account_lock z) s)
  unfolding acquire_lock
  acquire_lock-lost z x ttl s h =
      ground (arith, set_nx-lost (Key.account_lock z) (Key.account_lock x) "1" ttl s)

  pub acquire_lock-others :
      (z x : String) (ttl : ℕ) (s : Store)
      → z ≢ x
      → value (Key.account_lock z) (acquire_lock r (Key.account_lock x) ttl s).1
        ≡ value (Key.account_lock z) s
  unfolding acquire_lock
  acquire_lock-others z x ttl s d =
      ground
        (arith, set_nx-others (Key.account_lock z) (Key.account_lock x) "1" ttl s (other_lock d))

  pub acquire_lock-keeps :
      (z x : String) (ttl : ℕ) (s : Store)
      → Held z s
      → Held z (acquire_lock r (Key.account_lock x) ttl s).1
  unfolding acquire_lock
  acquire_lock-keeps z x ttl s h = elim (text-discrete z x) [
    | yes e ↦ rw (sym e) ground (arith, set_nx-keeps (Key.account_lock z) "1" ttl s h)
    | no d ↦ rw (acquire_lock-others z x ttl s d) h
  ]

  -- What a move does to the lock of `z`: it takes it while it is free, or it leaves it to its owner,
  -- or its owner gives it up.
  abbrev pub Effect : String → Store → Pc → Store → Pc → Type 0
  Effect z s p t p' =
      (Free z s × Held z t)
      ⊎ ((Held z s → Held z t) × (owns_lock p' z ≡ true → owns_lock p z ≡ true))
      ⊎ ((owns_lock p z ≡ true) × (owns_lock p' z ≡ false))

  won-Effect :
      (z x : String) (ttl : ℕ) (s : Store) (p p' : Pc)
      → (acquire_lock r (Key.account_lock x) ttl s).0 ≡ ok true
      → (x ≢ z → owns_lock p' z ≡ true → owns_lock p z ≡ true)
      → Effect z s p (acquire_lock r (Key.account_lock x) ttl s).1 p'
  won-Effect z x ttl s p p' w f = elim (text-discrete z x) [
    | yes e ↦ inl (rw e (acquire_lock-won x ttl s w))
    | no d ↦ inr (inl (acquire_lock-keeps z x ttl s, f (λ e. d (sym e))))
  ]

  lost-Effect :
      (z x : String) (ttl : ℕ) (s : Store) (p p' : Pc)
      → (owns_lock p' z ≡ true → owns_lock p z ≡ true)
      → Effect z s p (acquire_lock r (Key.account_lock x) ttl s).1 p'
  lost-Effect z x ttl s p p' f = inr (inl (acquire_lock-keeps z x ttl s, f))

  pub release_lock-others :
      (z x : String) (s : Store)
      → z ≢ x
      → value (Key.account_lock z) (release_lock r (Key.account_lock x) s).1
        ≡ value (Key.account_lock z) s
  unfolding release_lock
  release_lock-others z x s d =
      ground (arith, del-others (Key.account_lock z) (Key.account_lock x) s (other_lock d))

  pub release_lock-frees :
      (x : String) (s : Store)
      → (release_lock r (Key.account_lock x) s).0 ≡ ok tt
      → Free x (release_lock r (Key.account_lock x) s).1
  unfolding release_lock
  release_lock-frees x s h = ground (arith, del-self (Key.account_lock x) s)

  release-Effect :
      (z x : String) (s : Store) (p p' : Pc)
      → (x ≡ z → (owns_lock p z ≡ true) × (owns_lock p' z ≡ false))
      → (x ≢ z → owns_lock p' z ≡ true → owns_lock p z ≡ true)
      → Effect z s p (release_lock r (Key.account_lock x) s).1 p'
  release-Effect z x s p p' f g = elim (text-discrete z x) [
    | yes e ↦ inr (inr (f (sym e)))
    | no d ↦ inr (inl (λ h. rw (release_lock-others z x s d) h, g (λ e. d (sym e))))
  ]

  module _ (Fails : Type 0) (Expires : String → Type 0) (ttl : ℕ) where
    pub Move-Effect :
        (z : String) {s t : Store} {p p' : Pc}
        → ¬ Twice p z
        → Move r Fails Expires ttl s p t p'
        → Effect z s p t p'
    unfolding owns_lock
    Move-Effect z a (Move.begin _ _) = inr (inl (λ h. h, λ h. cc))
    Move-Effect z {s} a (Move.first_won {x} {y} w) =
        won-Effect z x ttl s (Pc.first x y) (Pc.second x y) w (λ d. ground arith)
    Move-Effect z {s} a (Move.first_lost {x} {y} w) =
        lost-Effect z x ttl s (Pc.first x y) Pc.idle (λ d. cc)
    Move-Effect z {s} a (Move.second_won {x} {y} w) =
        won-Effect z y ttl s (Pc.second x y) (Pc.inside x y) w (λ d. ground arith)
    Move-Effect z {s} a (Move.second_lost {x} {y} w) =
        lost-Effect z y ttl s (Pc.second x y) (Pc.back x y) (λ d. d)
    Move-Effect z {s} a (Move.given_back {x} {y} w) =
        release-Effect z x s (Pc.back x y) Pc.idle
          (λ e. (if_pos (text-discrete _ z) e true false, refl)) (λ e. cc)
    Move-Effect z {s} a (Move.released_first {x} {y} w) =
        release-Effect z x s (Pc.inside x y) (Pc.leaving y) (λ e. ground (arith, a))
          (λ e. ground arith)
    Move-Effect z {s} a (Move.released_second {y} w) =
        release-Effect z y s (Pc.leaving y) Pc.idle
          (λ e. (if_pos (text-discrete _ z) e true false, refl)) (λ e. cc)
    Move-Effect z {s} a (Move.first_failed {x} {y} _ w) =
        lost-Effect z x ttl s (Pc.first x y) Pc.idle (λ d. cc)
    Move-Effect z {s} a (Move.second_failed {x} {y} _ w) =
        lost-Effect z y ttl s (Pc.second x y) Pc.idle (λ d. cc)
    Move-Effect z {s} a (Move.back_failed {x} {y} _ w) =
        release-Effect z x s (Pc.back x y) Pc.idle
          (λ e. (if_pos (text-discrete _ z) e true false, refl)) (λ e. cc)
    Move-Effect z {s} a (Move.release_failed {x} {y} _ w) =
        release-Effect z x s (Pc.inside x y) Pc.idle
          (λ e. (if_pos (text-discrete x z) e true _, refl)) (λ e. cc)
    Move-Effect z {s} a (Move.last_failed {y} _ w) =
        release-Effect z y s (Pc.leaving y) Pc.idle
          (λ e. (if_pos (text-discrete _ z) e true false, refl)) (λ e. cc)
