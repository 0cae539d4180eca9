-- ===== src/Payment/Initiate/Invalidation.antt =====
-- The read caches after a payment: which keys are gone.
use settlr.Prelude.{
  ◌⊎◌, inl, inr, Option-cases, ◌≡◌, ◌≢◌, refl, sym, ◌∙◌, ap, subst, false, List, [], ◌∷◌, none,
  some, String, All, arith,
}
use settlr.Errors.{Result, ok, err}
use settlr.Redis.{Redis, Key, Key-discrete}
use settlr.Redis.Lock.{release_all_locks}
use settlr.Database.{TransactionRow}
use settlr.Payment.{PaymentParams, FraudResult, PaymentResult, Platform}
use settlr.Payment.Initiate.{
  State, stale_keys, idempotency_set, invalidate, complete, initiate_payment,
}
use settlr.Payment.Initiate.Returned.{Gives, initiate_payment-Gives}
use settlr.Payment.Initiate.Cache.{release-others}

-- A key that is absent stays so when another one, or it, is deleted.
del-absent :
    (r : Redis) (j k : Key) (s : r.Store)
    → (r.del k s).0 ≡ some tt
    → r.value j s ≡ none
    → r.value j (r.del k s).1 ≡ none
del-absent r j k s h a = elim (Key-discrete j k) [
  | yes e ↦ subst (λ x. r.value x (r.del k s).1 ≡ none) (sym e) (r.del-self k s h)
  | no d ↦ r.del-others j k s d ∙ a
]

module _ (p : Platform) (q : PaymentParams) where
  open p use {redis}

  abbrev pub IsAbsent : redis.Store → Key → Type 0
  IsAbsent s j = redis.value j s ≡ none

  invalidate-stays :
      (j : Key) (ks : List Key) (w : State p)
      → (invalidate p ks w).0 ≡ ok tt
      → IsAbsent w.store j
      → IsAbsent (invalidate p ks w).1.store j
  unfolding invalidate
  invalidate-stays j [] w h a = a
  invalidate-stays j (k ∷ ks) w h a = ground (
    arith,
    del-absent redis j k w.store,
    invalidate-stays j ks (record w { store = (redis.del k w.store).1 }),
  )

  invalidate-IsAbsent :
      (ks : List Key) (w : State p)
      → (invalidate p ks w).0 ≡ ok tt
      → All (IsAbsent (invalidate p ks w).1.store) ks
  unfolding invalidate
  invalidate-IsAbsent [] w h = tt
  invalidate-IsAbsent (k ∷ ks) w h =
      let s = (redis.del k w.store).1 in
      (
        ground (arith, redis.del-self k w.store, invalidate-stays k ks (record w { store = s })),
        ground (arith, invalidate-IsAbsent ks (record w { store = s })),
      )

  abbrev AllAbsent : PaymentResult → redis.Store → Type 0
  AllAbsent r s = All (IsAbsent s) (stale_keys p q)

  -- A completed payment has deleted every stale key, and has not written to Redis since.
  complete-invalidates :
      (fraud : FraudResult) (t : TransactionRow) (w : State p) (r : PaymentResult)
      → (complete p q fraud t w).0 ≡ ok r
      → let s = (idempotency_set p q.idempotency_key t w).1 in
        let done = invalidate p (stale_keys p q) s in
        (done.0 ≡ ok tt) × ((complete p q fraud t w).1.store ≡ done.1.store)
  unfolding complete idempotency_set
  complete-invalidates fraud t w r h = ground arith

  completed-AllAbsent :
      (fraud : FraudResult) (t : TransactionRow) (w : State p)
      → Gives p q AllAbsent (complete p q fraud t w)
  completed-AllAbsent fraud t w = go (complete p q fraud t w) refl
    where
      go : (o : Result PaymentResult × State p) → complete p q fraud t w ≡ o → Gives p q AllAbsent o
      go (err e, s) h = tt
      go (ok r, s) h =
          let c = complete-invalidates fraud t w r (ap (λ o. o.0) h) in
          let set = (idempotency_set p q.idempotency_key t w).1 in
          let same : (invalidate p (stale_keys p q) set).1.store ≡ s.store =
            sym c.1 ∙ ap (λ (o : Result PaymentResult × State p). o.1.store) h in
          subst (λ x. All (IsAbsent x) (stale_keys p q)) same
            (invalidate-IsAbsent (stale_keys p q) set c.0)

  release-AllAbsent :
      (a b : String) (r : PaymentResult) (s : redis.Store)
      → AllAbsent r s
      → AllAbsent r (release_all_locks redis (Key.account_lock a ∷ Key.account_lock b ∷ []) s).1
  release-AllAbsent a b r s (h0, (h1, (h2, (h3, (h4, (h5, (h6, (h7, _)))))))) = (
    kept (λ x e. cc) h0,
    (
      kept (λ x e. cc) h1,
      (
        kept (λ x e. cc) h2,
        (
          kept (λ x e. cc) h3,
          (
            kept (λ x e. cc) h4,
            (kept (λ x e. cc) h5, (kept (λ x e. cc) h6, (kept (λ x e. cc) h7, tt))),
          ),
        ),
      ),
    ),
  )
    where
      kept :
          {j : Key}
          → ((x : String) → j ≢ Key.account_lock x)
          → IsAbsent s j
          → IsAbsent (release_all_locks redis (Key.account_lock a ∷ Key.account_lock b ∷ []) s).1 j
      kept {j} d h =
          release-others p q j (Key.account_lock a ∷ Key.account_lock b ∷ []) s (d a, (d b, tt)) ∙ h

  -- After a fresh result Redis holds no read cache of either account.
  pub initiate_payment-AllAbsent :
      (w : State p) (r : PaymentResult)
      → (initiate_payment p q w).0 ≡ ok r
      → r.from_cache ≡ false
      → All (IsAbsent (initiate_payment p q w).1.store) (stale_keys p q)
  initiate_payment-AllAbsent =
      initiate_payment-Gives p q AllAbsent completed-AllAbsent release-AllAbsent

-- What GET answers for an absent key.
pub get-absent :
    (r : Redis) (k : Key) (s : r.Store)
    → r.value k s ≡ none
    → ((r.get k s).0 ≡ none) ⊎ ((r.get k s).0 ≡ some none)
get-absent r k s a = elim (Option-cases (r.get k s).0) [
  | inl e ↦ inl e
  | inr (v, e) ↦ inr (e ∙ ap some (r.get-value k s e ∙ a))
]
