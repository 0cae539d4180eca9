-- ===== src/Payment/Initiate/Cache.antt =====
-- What a payment leaves in the idempotency cache, and the release of the account locks.
use settlr.Prelude.{
  subst, ◌⊎◌, inl, inr, Bool-cases, text_le, String, sym, ◌≡◌, ◌≢◌, refl, ◌∙◌, ap, true, false,
  List, [], ◌∷◌, none, some, arith,
}
use settlr.Errors.{fault, Fault, Result, ok, err}
use settlr.Action.{handle}
use settlr.Redis.{Key}
use settlr.Redis.Lock.{Locks, sorted, acquire_account_locks, release_lock, release_all_locks}
use settlr.Redis.Lock.Laws.{release_all_locks-both, acquire_account_locks-acquired}
use settlr.Database.{TransactionRow}
use settlr.Payment.{PaymentParams, FraudResult, PaymentResult, Platform}
use settlr.Payment.Initiate.{
  State, stale_keys, idempotency_set, invalidate, complete, locked_payment, report_failure, guarded,
  validate, fresh_payment, initiate_payment,
}
use settlr.Payment.Initiate.Atomic.{release-ends}
use settlr.Payment.Initiate.Returned.{Gives, initiate_payment-Gives}

-- A key that is none of a list.
abbrev Avoids : Key → List Key → Type 0
Avoids j [] = Unit {0}
Avoids j (k ∷ ks) = (j ≢ k) × Avoids j ks

sorted-cases : (a b : String) → (sorted a b ≡ (a, b)) ⊎ (sorted a b ≡ (b, a))
sorted-cases a b = elim (Bool-cases (text_le a b)) [
  | inl e ↦ inl (rw e refl)
  | inr e ↦ inr (rw e refl)
]

module _ (p : Platform) (q : PaymentParams) where
  open p use {redis, stringify, parse}

  -- What runs under two locks frees both.
  guarded-releases :
      (k l : Key) (w : State p)
      → (guarded p (k ∷ l ∷ []) q w).0 ≢ err (fault Fault.redis_error)
      → let out = guarded p (k ∷ l ∷ []) q w in
        (redis.value k out.1.store ≡ none) × (redis.value l out.1.store ≡ none)
  guarded-releases k l w h =
      let s = (handle (locked_payment p q w) (report_failure p q)).1.store in
      ground (arith, release-ends p q (k ∷ l ∷ []) s, release_all_locks-both redis k k l s)

  validate-passed : (w : State p) → (validate p q w).0 ≡ ok tt → validate p q w ≡ (ok tt, w)
  unfolding validate
  validate-passed w h = ground arith

  -- A valid request that acquires its locks goes on under them.
  pub fresh_payment-guarded :
      (w : State p) (locks : Locks)
      → (validate p q w).0 ≡ ok tt
      → (acquire_account_locks redis q.from_account_id q.to_account_id 10 w.store).0 ≡ ok locks
      → locks.acquired ≡ true
      → let s = (acquire_account_locks redis q.from_account_id q.to_account_id 10 w.store).1 in
        fresh_payment p q w ≡ guarded p locks.lock_keys q (record w { store = s })
  unfolding fresh_payment
  fresh_payment-guarded w locks valid got won = rw (validate-passed w valid, got, won) refl

  abbrev IsFree : String → redis.Store → Type 0
  IsFree id s = redis.value (Key.account_lock id) s ≡ none

  both-IsFree :
      (f t : String) (s : redis.Store)
      → IsFree (sorted f t).0 s
      → IsFree (sorted f t).1 s
      → IsFree f s × IsFree t s
  both-IsFree f t s h k = elim (sorted-cases f t) [
    | inl e ↦ (
      subst (λ (x : String × String). IsFree x.0 s) e h,
      subst (λ (x : String × String). IsFree x.1 s) e k,
    )
    | inr e ↦ (
      subst (λ (x : String × String). IsFree x.1 s) e k,
      subst (λ (x : String × String). IsFree x.0 s) e h,
    )
  ]

  -- If a request is valid and acquires the locks of its two accounts, then neither account is locked
  -- any more when fresh_payment ends, whether it returns or throws, and whatever it throws except a
  -- failure of Redis.
  pub fresh_payment-releases :
      (w : State p) (locks : Locks)
      → (validate p q w).0 ≡ ok tt
      → (acquire_account_locks redis q.from_account_id q.to_account_id 10 w.store).0 ≡ ok locks
      → locks.acquired ≡ true
      → (fresh_payment p q w).0 ≢ err (fault Fault.redis_error)
      → let out = fresh_payment p q w in
        (redis.value (Key.account_lock q.from_account_id) out.1.store ≡ none)
        × (redis.value (Key.account_lock q.to_account_id) out.1.store ≡ none)
  fresh_payment-releases w locks valid got won h =
      let f = q.from_account_id in
      let t = q.to_account_id in
      let s = (acquire_account_locks redis f t 10 w.store).1 in
      let k = Key.account_lock (sorted f t).0 in
      let l = Key.account_lock (sorted f t).1 in
      let keys =
        (acquire_account_locks-acquired redis f t 10 w.store (Key.account_lock f) got won).0 in
      let same : fresh_payment p q w ≡ guarded p (k ∷ l ∷ []) q (record w { store = s }) =
        fresh_payment-guarded w locks valid got won
        ∙ ap (λ ks. guarded p ks q (record w { store = s })) keys in
      let free =
        guarded-releases k l (record w { store = s })
          (λ e. h (ap (λ (o : Result PaymentResult × State p). o.0) same ∙ e)) in
      subst (λ (o : Result PaymentResult × State p). (IsFree f o.1.store) × (IsFree t o.1.store))
        (sym same)
        (both-IsFree f t (guarded p (k ∷ l ∷ []) q (record w { store = s })).1.store free.0 free.1)

  invalidate-others :
      (j : Key) (ks : List Key) (w : State p)
      → Avoids j ks
      → redis.value j (invalidate p ks w).1.store ≡ redis.value j w.store
  unfolding invalidate
  invalidate-others j [] w a = refl
  invalidate-others j (k ∷ ks) w a = ground (
    arith,
    redis.del-others j k w.store a.0,
    invalidate-others j ks (record w { store = (redis.del k w.store).1 }) a.1,
  )

  -- What `complete` leaves in the cache.
  complete-cached :
      (fraud : FraudResult) (t : TransactionRow) (w : State p) (r : PaymentResult)
      → (complete p q fraud t w).0 ≡ ok r
      → (r.transaction ≡ t)
        × (redis.value (Key.idempotency q.idempotency_key) (complete p q fraud t w).1.store
            ≡ some (stringify t))
  unfolding complete idempotency_set
  complete-cached fraud t w r h =
      let k = Key.idempotency q.idempotency_key in
      let set = redis.setex k p.idempotency_ttl_seconds (stringify t) w.store in
      ground (
        arith,
        redis.setex-self k p.idempotency_ttl_seconds (stringify t) w.store,
        invalidate-others k (stale_keys p q) (record w { store = set.1 })
            (
              λ e. cc,
              (λ e. cc, (λ e. cc, (λ e. cc, (λ e. cc, (λ e. cc, (λ e. cc, (λ e. cc, tt))))))),
            ),
      )

  abbrev IsCached : PaymentResult → redis.Store → Type 0
  IsCached r s = redis.value (Key.idempotency q.idempotency_key) s ≡ some (stringify r.transaction)

  completed-IsCached :
      (fraud : FraudResult) (t : TransactionRow) (w : State p)
      → Gives p q IsCached (complete p q fraud t w)
  completed-IsCached fraud t w = go (complete p q fraud t w) refl
    where
      go : (o : Result PaymentResult × State p) → complete p q fraud t w ≡ o → Gives p q IsCached o
      go (err e, s) h = tt
      go (ok r, s) h =
          let c = complete-cached fraud t w r (ap (λ o. o.0) h) in
          cc (
            c.1,
            ap
                (λ (o : Result PaymentResult × State p).
                  redis.value (Key.idempotency q.idempotency_key) o.1.store)
                h,
            ap (λ (x : TransactionRow). some (stringify x)) c.0,
          )

  pub release-others :
      (j : Key) (ks : List Key) (s : redis.Store)
      → Avoids j ks
      → redis.value j (release_all_locks redis ks s).1 ≡ redis.value j s
  unfolding release_all_locks release_lock
  release-others j [] s a = refl
  release-others j (k ∷ ks) s a =
      ground (arith, redis.del-others j k s a.0, release-others j ks (redis.del k s).1 a.1)

  -- A fresh result is in the cache when it is returned.
  pub initiate_payment-Caches :
      (w : State p) (r : PaymentResult)
      → (initiate_payment p q w).0 ≡ ok r
      → r.from_cache ≡ false
      → redis.value (Key.idempotency q.idempotency_key) (initiate_payment p q w).1.store
        ≡ some (stringify r.transaction)
  initiate_payment-Caches = initiate_payment-Gives p q IsCached completed-IsCached λ a b r s h.
      release-others (Key.idempotency q.idempotency_key)
        (Key.account_lock a ∷ Key.account_lock b ∷ []) s (λ e. cc, (λ e. cc, tt))
      ∙ h
