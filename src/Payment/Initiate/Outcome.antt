-- ===== src/Payment/Initiate/Outcome.antt =====
-- How a payment ends, and what the tables hold then: the catch, the release of the locks, and the
-- whole of initiatePayment.
use settlr.Prelude.{
  ◌≡◌, ◌⊎◌, inl, inr, refl, sym, ◌∙◌, ap, subst, Bool, true, false, not, List, Option, none, some,
  arith, if◌then◌else◌,
}
use settlr.Errors.{Error, app, fault, Fault, Result, ok, err}
use settlr.Errors.Factory
use settlr.Action.{handle, after, throw_if}
use settlr.Redis.{Key}
use settlr.Redis.Lock.{acquire_account_locks, release_all_locks}
use settlr.Database.{TransactionRow, Tables}
use settlr.Payment.{PaymentParams, PaymentResult, Platform, on_store}
use settlr.Payment.Initiate.{
  State, idempotency_get, replay_or, validate, locked_payment, report_failure, guarded,
  fresh_payment, initiate_payment,
}
use settlr.Payment.Initiate.Atomic.{Posts, Ends, continue-Ends, locked_payment-Ends, release-ends}

module _ (p : Platform) (q : PaymentParams) where
  -- Publishing the failure changes nothing here.
  caught-Ends :
      (t : Tables) (o : Result PaymentResult × State p)
      → Ends p q t o.0 o.1.tables
      → let out = handle o (report_failure p q) in Ends p q t out.0 out.1.tables
  unfolding report_failure
  caught-Ends t (ok r, s) h = h
  caught-Ends t (err e, s) h = h

  fault-Ends :
      (t t' : Tables) (r : Result PaymentResult)
      → Ends p q t r t'
      → Ends p q t (err (fault Fault.redis_error)) t'
  fault-Ends t t' (ok r) h = replayed r.from_cache h
    where
      replayed :
          (b : Bool)
          → (if b then t' ≡ t else Posts p q t r.transaction t')
          → Ends p q t (err (fault Fault.redis_error)) t'
      replayed true h = inl h
      replayed false h = inr (refl, r.transaction, h)
  fault-Ends t t' (err (app e)) h = inl h
  fault-Ends t t' (err (fault e)) h = elim h [
    | inl k ↦ inl k
    | inr (_, row, k) ↦ inr (refl, row, k)
  ]

  after-Ends :
      (t t' : Tables) (r : Result PaymentResult) (o : Result (Unit {0}) × State p)
      → (o.0 ≡ ok tt) ⊎ (o.0 ≡ err (fault Fault.redis_error))
      → o.1.tables ≡ t'
      → Ends p q t r t'
      → let out = after r o in Ends p q t out.0 out.1.tables
  after-Ends t t' r (ok _, s) c e h = subst (λ u. Ends p q t r u) (sym e) h
  after-Ends t t' r (err x, s) (inl c) e h = cc
  after-Ends t t' r (err x, s) (inr c) e h =
      subst (λ (y : Result (Unit {0})). Ends p q t (relabel y) s.tables) (sym c)
        (subst (λ u. Ends p q t (err (fault Fault.redis_error)) u) (sym e) (fault-Ends t t' r h))
    where
      relabel : Result (Unit {0}) → Result PaymentResult
      relabel (ok _) = r
      relabel (err y) = err y

  guarded-Ends :
      (locks : List Key) (w : State p)
      → let out = guarded p locks q w in Ends p q w.tables out.0 out.1.tables
  guarded-Ends locks w =
      let inner = handle (locked_payment p q w) (report_failure p q) in
      after-Ends w.tables inner.1.tables inner.0
        (on_store (release_all_locks p.redis locks) inner.1) (release-ends p q locks inner.1.store)
        refl (caught-Ends w.tables (locked_payment p q w) (locked_payment-Ends p q w))

  validate-tables : (w : State p) → (validate p q w).1.tables ≡ w.tables
  unfolding validate
  validate-tables w = ground arith

  refused-tables : (b : Bool) (e : Error) (w : State p) → (throw_if {S = State p} b e w).1 ≡ w
  refused-tables true e w = refl
  refused-tables false e w = refl

  fresh_payment-Ends :
      (w : State p) → let out = fresh_payment p q w in Ends p q w.tables out.0 out.1.tables
  unfolding fresh_payment
  fresh_payment-Ends w =
      let t = w.tables in
      continue-Ends p q t (validate p q w) _ (validate-tables w) λ u v.
        let s = (validate p q w).1 in
        continue-Ends p q t
          (on_store (acquire_account_locks p.redis q.from_account_id q.to_account_id 10) s) _
          (validate-tables w)
          λ locks a.
            let s' =
              (on_store (acquire_account_locks p.redis q.from_account_id q.to_account_id 10) s).1 in
            let held =
              throw_if {S = State p} (not locks.acquired) (app Factory.account_locked) s' in
            let same : held.1.tables ≡ t =
              ap (λ (x : State p). x.tables)
                (refused-tables (not locks.acquired) (app Factory.account_locked) s')
              ∙ validate-tables w in
            continue-Ends p q t held _ same λ x b.
              subst
                (λ y. let out = guarded p locks.lock_keys q held.1 in Ends p q y out.0 out.1.tables)
                same (guarded-Ends locks.lock_keys held.1)

  cached-tables : (w : State p) → (idempotency_get p q.idempotency_key w).1.tables ≡ w.tables
  unfolding idempotency_get
  cached-tables w = ground arith

  -- However a payment ends, its tables are those of before, or those after one committed transfer
  -- of the request. If it returns a fresh result, that transfer was committed, it returned the
  -- transaction of the result, and its fraud result does not block; if it returns a cached result
  -- or throws an AppError, the tables are unchanged; if it throws anything else, they are
  -- unchanged, or Redis failed after the commit.
  pub initiate_payment-Ends :
      (w : State p) → let out = initiate_payment p q w in Ends p q w.tables out.0 out.1.tables
  unfolding initiate_payment
  initiate_payment-Ends w =
      let s = (idempotency_get p q.idempotency_key w).1 in
      continue-Ends p q w.tables (idempotency_get p q.idempotency_key w) _ (cached-tables w)
        λ c g. found c s (cached-tables w)
    where
      found :
          (c : Option TransactionRow) (s : State p)
          → s.tables ≡ w.tables
          → let out = replay_or p q c s in Ends p q w.tables out.0 out.1.tables
      found (some t) s e = e
      found none s e =
          subst (λ y. let out = fresh_payment p q s in Ends p q y out.0 out.1.tables) e
            (fresh_payment-Ends s)
