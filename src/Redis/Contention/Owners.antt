-- ===== src/Redis/Contention/Owners.antt =====
-- While every command is answered, a lock that is held has an owner.
use settlr.Prelude.{
  ℕ, ◌≡◌, ◌≢◌, ◌⊎◌, ◌↔◌, inl, inr, sym, subst, true, false, String, text-discrete, arith,
}
use mathlib.Core.Logic.{if_pos}
use settlr.Errors.{ok}
use settlr.Redis.{Redis, Key}
use settlr.Redis.Lock.{acquire_lock, release_lock}
use settlr.Redis.Contention.{Pc, owns_lock, update, Move, Step, Reach}
use settlr.Redis.Contention.Effects.{
  Free, Held, acquire_lock-others, release_lock-others, release_lock-frees, acquire_lock-lost,
}
use settlr.Redis.Contention.Exclusion.{Reach-Inv}

module _ (r : Redis) (z : String) where
  open r use {Store, value}

  -- What a move does to the owners of `z`: it makes the payment one, or the lock is held after it
  -- only if it was before and the payment still owns it if it did, or the lock is free after it.
  abbrev Kept : Store → Pc → Store → Pc → Type 0
  Kept s p t p' =
      (owns_lock p' z ≡ true)
      ⊎ ((Held r z t → Held r z s) × (owns_lock p z ≡ true → owns_lock p' z ≡ true))
      ⊎ Free r z t

  won_keeps :
      (x : String) (ttl : ℕ) (s : Store) (p p' : Pc)
      → (x ≡ z → owns_lock p' z ≡ true)
      → (x ≢ z → owns_lock p z ≡ true → owns_lock p' z ≡ true)
      → Kept s p (acquire_lock r (Key.account_lock x) ttl s).1 p'
  won_keeps x ttl s p p' f g = elim (text-discrete z x) [
    | yes e ↦ inl (f (sym e))
    | no d ↦ inr (inl (λ h. rw (sym (acquire_lock-others r z x ttl s d)) h, g (λ e. d (sym e))))
  ]

  lost_keeps :
      (x : String) (ttl : ℕ) (s : Store) (p p' : Pc)
      → (acquire_lock r (Key.account_lock x) ttl s).0 ≡ ok false
      → (owns_lock p z ≡ true → owns_lock p' z ≡ true)
      → Kept s p (acquire_lock r (Key.account_lock x) ttl s).1 p'
  lost_keeps x ttl s p p' w f = inr (inl (λ h. rw (sym ((acquire_lock-lost r z x ttl s w).1)) h, f))

  released_keeps :
      (x : String) (s : Store) (p p' : Pc)
      → (release_lock r (Key.account_lock x) s).0 ≡ ok tt
      → (x ≢ z → owns_lock p z ≡ true → owns_lock p' z ≡ true)
      → Kept s p (release_lock r (Key.account_lock x) s).1 p'
  released_keeps x s p p' w f = elim (text-discrete z x) [
    | yes e ↦ inr (
        inr (
          subst (λ q. Free r q (release_lock r (Key.account_lock x) s).1) (sym e)
            (release_lock-frees r x s w)))
    | no d ↦ inr (inl (λ h. rw (sym (release_lock-others r z x s d)) h, f (λ e. d (sym e))))
  ]

  abbrev Owned : Store → (ℕ → Pc) → Type 0
  Owned s pc = Held r z s → (i : ℕ) × (owns_lock (pc i) z ≡ true)

  Kept-Owned :
      {s t : Store} (pc : ℕ → Pc) (i : ℕ) (p : Pc)
      → Owned s pc
      → Kept s (pc i) t p
      → Owned t (update pc i p)
  Kept-Owned pc i p owned (inl own) held = (i, ground arith)
  Kept-Owned pc i p owned (inr (inl (before, own))) held =
      let (j, e) = owned (before held) in (j, ground arith)
  Kept-Owned pc i p owned (inr (inr free)) held = absurd (held free)

  module _ {Fails : Type 0} {Expires : String → Type 0} {ttl : ℕ} (answers : ¬ Fails) where
    Move-Kept : {s t : Store} {p p' : Pc} → Move r Fails Expires ttl s p t p' → Kept s p t p'
    unfolding owns_lock
    Move-Kept (Move.begin a b) = inr (inl (λ h. h, λ h. cc))
    Move-Kept {s} (Move.first_won {x} {y} w) =
        won_keeps x ttl s (Pc.first x y) (Pc.second x y) (λ e. if_pos (text-discrete x z) e true _)
          (λ d h. cc)
    Move-Kept {s} (Move.first_lost {x} {y} w) =
        lost_keeps x ttl s (Pc.first x y) Pc.idle w (λ h. cc)
    Move-Kept {s} (Move.second_won {x} {y} w) =
        won_keeps y ttl s (Pc.second x y) (Pc.inside x y) (λ e. ground arith) (λ d h. ground arith)
    Move-Kept {s} (Move.second_lost {x} {y} w) =
        lost_keeps y ttl s (Pc.second x y) (Pc.back x y) w (λ h. h)
    Move-Kept {s} (Move.given_back {x} {y} w) =
        released_keeps x s (Pc.back x y) Pc.idle w (λ d h. ground arith)
    Move-Kept {s} (Move.released_first {x} {y} w) =
        released_keeps x s (Pc.inside x y) (Pc.leaving y) w (λ d h. ground arith)
    Move-Kept {s} (Move.released_second {y} w) =
        released_keeps y s (Pc.leaving y) Pc.idle w (λ d h. ground arith)
    Move-Kept (Move.first_failed f _) = absurd (answers f)
    Move-Kept (Move.second_failed f _) = absurd (answers f)
    Move-Kept (Move.back_failed f _) = absurd (answers f)
    Move-Kept (Move.release_failed f _) = absurd (answers f)
    Move-Kept (Move.last_failed f _) = absurd (answers f)

    Reach-Owned :
        {s : Store} {pc : ℕ → Pc}
        → Reach r Fails Expires ttl s pc
        → Held r z s
        → (i : ℕ) × (owns_lock (pc i) z ≡ true)
    Reach-Owned (Reach.start free) held = absurd (held (free z))
    Reach-Owned (Reach.later before (Step.pick i {p} mv)) held =
        Kept-Owned _ i p (Reach-Owned before) (Move-Kept mv) held
    Reach-Owned (Reach.later before (Step.expire x e gone same)) held = elim (text-discrete z x) [
      | yes eq ↦ absurd (held (rw eq gone))
      | no d ↦ Reach-Owned before (rw (sym (same z d)) held)
    ]
    Reach-Owned (Reach.later before (Step.elsewhere same)) held =
        Reach-Owned before (rw (sym (same z)) held)

    -- While every command is answered and the key of an account does not expire, its lock is held
    -- exactly while some payment owns it: a payment is refused only if another step of some payment
    -- took the lock before, and nothing is left held when the payments have ended.
    pub account_lock-owned :
        {s : Store} {pc : ℕ → Pc}
        → ¬ Expires z
        → Reach r Fails Expires ttl s pc
        → Held r z s ↔ ((i : ℕ) × (owns_lock (pc i) z ≡ true))
    account_lock-owned lasts reach =
        (Reach-Owned reach, λ (i, own). (Reach-Inv r Fails Expires ttl z lasts reach).kept i own)
