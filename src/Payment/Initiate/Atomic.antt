-- ===== src/Payment/Initiate/Atomic.antt =====
-- A payment as a whole: how it ends, and what the tables hold then.
use settlr.Prelude.{
  ◌≡◌, ◌⊎◌, inl, inr, refl, sym, ◌∙◌, ap, subst, true, false, List, [], ◌∷◌, arith, if◌then◌else◌,
}
use settlr.Errors.{Error, app, fault, Fault, Result, ok, err}
use settlr.Action.{Action, continue}
use settlr.Redis.{Key}
use settlr.Redis.Lock.{release_all_locks, release_lock}
use settlr.Database.{TransactionRow, Tables, parse_bigint}
use settlr.Payment.{
  PaymentParams, FraudResult, PaymentResult, Platform, on_tables, transaction, end_transaction,
}
use settlr.Payment.Repository.{select_account, read_row}
use settlr.Payment.Transfer.{transfer}
use settlr.Payment.Attempts.{attempts, attempts-ends, conflicts}
use settlr.Payment.Initiate.{
  State, blocks, stale_keys, idempotency_set, run_fraud_check, load_sender, reject_high_risk,
  invalidate, complete, locked_payment,
}

module _ (p : Platform) (q : PaymentParams) where
  load_sender-tables : (w : State p) → (load_sender p q w).1.tables ≡ w.tables
  unfolding load_sender select_account read_row parse_bigint
  load_sender-tables w = ground arith

  -- A payment that goes on was not blocked.
  reject_high_risk-tables :
      (fraud : FraudResult) (w : State p)
      → ((reject_high_risk p q fraud w).1.tables ≡ w.tables)
        × ((reject_high_risk p q fraud w).0 ≡ ok tt → blocks fraud.action ≡ false)
  unfolding reject_high_risk
  reject_high_risk-tables fraud w = ground arith

  module _ (fraud : FraudResult) where
    -- A committed transfer, or one that was rolled back.
    abbrev Commits : Tables → Result TransactionRow → Tables → Type 0
    Commits t (ok row) t' = ((transfer p q fraud t).0 ≡ ok row) × (t' ≡ (transfer p q fraud t).1)
    Commits t (err e) t' = t' ≡ t

    abbrev once : Action (State p) TransactionRow
    once = on_tables (transaction (transfer p q fraud))

    rolled_back :
        (w : State p) (o : Result TransactionRow × Tables)
        → transfer p q fraud w.tables ≡ o
        → let out = end_transaction w.tables o in Commits w.tables out.0 out.1
    rolled_back w (ok row, t) e = (ap (λ o. o.0) e, sym (ap (λ o. o.1) e))
    rolled_back w (err x, t) e = refl

    once-Commits : (w : State p) → Commits w.tables (once w).0 (once w).1.tables
    once-Commits w = rolled_back w (transfer p q fraud w.tables) refl

    -- A run that conflicts leaves the tables as they were.
    conflict_kept :
        (t : Tables) (r : Result TransactionRow) (s : State p)
        → Commits t r s.tables
        → conflicts (r, s) ≡ true
        → s.tables ≡ t
    conflict_kept t (ok row) s c h = cc
    conflict_kept t (err e) s c h = c

    again-Commits :
        (t : Tables) (s : State p) → s.tables ≡ t → Commits t (once s).0 (once s).1.tables
    again-Commits t s e = subst (λ u. Commits u (once s).0 (once s).1.tables) e (once-Commits s)

    outcome-Commits :
        (t : Tables) (o o' : Result TransactionRow × State p)
        → o ≡ o'
        → Commits t o'.0 o'.1.tables
        → Commits t o.0 o.1.tables
    outcome-Commits t o o' e c = subst (λ x. Commits t x.0 x.1.tables) (sym e) c

    -- The loop commits one transfer from the tables that it started with, or leaves them.
    attempts-Commits :
        (w : State p) → let out = attempts 3 0 once w in Commits w.tables out.0 out.1.tables
    attempts-Commits w =
        let t = w.tables in
        let first = once w in
        let second = once first.1 in
        let c = once-Commits w in
        let next = λ (h : conflicts first ≡ true). conflict_kept t first.0 first.1 c h in
        let d = λ (h : conflicts first ≡ true). again-Commits t first.1 (next h) in
        elim (attempts-ends once w) [
          | inl (_, e) ↦ outcome-Commits t _ first e c
          | inr (inl (h, _, e)) ↦ outcome-Commits t _ second e (d h)
          | inr (inr (h, k, e)) ↦
              outcome-Commits t _ (once second.1) e
                (again-Commits t second.1 (conflict_kept t second.0 second.1 (d h) k))
        ]

  invalidate-ends :
      (ks : List Key) (w : State p)
      → ((invalidate p ks w).1.tables ≡ w.tables)
        × (((invalidate p ks w).0 ≡ ok tt)
            ⊎ ((invalidate p ks w).0 ≡ err (fault Fault.redis_error)))
  unfolding invalidate
  invalidate-ends [] w = (refl, inl refl)
  invalidate-ends (k ∷ ks) w =
      let (o, s) = p.redis.del k w.store in
      ground (arith, invalidate-ends ks (record w { store = s }))

  pub release-ends :
      (ks : List Key) (s : p.redis.Store)
      → ((release_all_locks p.redis ks s).0 ≡ ok tt)
        ⊎ ((release_all_locks p.redis ks s).0 ≡ err (fault Fault.redis_error))
  unfolding release_all_locks release_lock
  release-ends [] s = inl refl
  release-ends (k ∷ ks) s = ground (arith, release-ends ks (p.redis.del k s).1)

  -- After the commit the tables stay, and only Redis can fail.
  pub complete-ends :
      (fraud : FraudResult) (t : TransactionRow) (w : State p)
      → ((complete p q fraud t w).1.tables ≡ w.tables)
        × (((complete p q fraud t w).0
              ≡ ok (record { transaction = t; from_cache = false; status_code = 201 }))
            ⊎ ((complete p q fraud t w).0 ≡ err (fault Fault.redis_error)))
  unfolding complete idempotency_set
  complete-ends fraud t w =
      let (o, s) =
        p.redis.setex (Key.idempotency q.idempotency_key) p.idempotency_ttl_seconds (p.stringify t)
          w.store in
      ground (arith, invalidate-ends (stale_keys p q) (record w { store = s }))

  -- One transfer of the request was committed, with a fraud result that does not block.
  abbrev pub Posts : Tables → TransactionRow → Tables → Type 0
  Posts t row t' =
      (fraud : FraudResult) × (blocks fraud.action ≡ false)
      × ((transfer p q fraud t).0 ≡ ok row)
      × (t' ≡ (transfer p q fraud t).1)

  -- What the tables hold after a payment, by how it ended.
  abbrev pub Ends : Tables → Result PaymentResult → Tables → Type 0
  Ends t (ok r) t' = if r.from_cache then t' ≡ t else Posts t r.transaction t'
  Ends t (err (app e)) t' = t' ≡ t
  Ends t (err (fault e)) t' =
      (t' ≡ t) ⊎ ((e ≡ Fault.redis_error) × (row : TransactionRow) × Posts t row t')

  failed-Ends : (t t' : Tables) (e : Error) → t' ≡ t → Ends t (err e) t'
  failed-Ends t t' (app e) h = h
  failed-Ends t t' (fault e) h = inl h

  -- After an action that leaves the tables alone, the rest of the payment decides.
  pub continue-Ends :
      {A : Type 0} (t : Tables) (o : Result A × State p) (k : A → Action (State p) PaymentResult)
      → o.1.tables ≡ t
      → ((a : A) → o.0 ≡ ok a → Ends t (k a o.1).0 (k a o.1).1.tables)
      → let out = continue o k in Ends t out.0 out.1.tables
  continue-Ends t (ok a, s) k h next = next a refl
  continue-Ends t (err e, s) k h next = failed-Ends t s.tables e h

  completed-Ends :
      (t : Tables) (fraud : FraudResult) (o : Result TransactionRow × State p)
      → blocks fraud.action ≡ false
      → Commits fraud t o.0 o.1.tables
      → let out = continue o (complete p q fraud) in Ends t out.0 out.1.tables
  completed-Ends t fraud (err e, s) free c = failed-Ends t s.tables e c
  completed-Ends t fraud (ok row, s) free c =
      let posts : Posts t row (complete p q fraud row s).1.tables =
        (fraud, free, c.0, (complete-ends fraud row s).0 ∙ c.1) in
      elim ((complete-ends fraud row s).1) [
        | inl e ↦ subst (λ r. Ends t r (complete p q fraud row s).1.tables) (sym e) posts
        | inr e ↦
            subst (λ r. Ends t r (complete p q fraud row s).1.tables) (sym e)
              (inr (refl, row, posts))
      ]

  pub locked_payment-Ends :
      (w : State p) → let out = locked_payment p q w in Ends w.tables out.0 out.1.tables
  unfolding locked_payment
  locked_payment-Ends w =
      continue-Ends w.tables (load_sender p q w) _ (load_sender-tables w) λ sender _.
        let s = (load_sender p q w).1 in
        let fraud = run_fraud_check p q sender in
        continue-Ends w.tables (reject_high_risk p q fraud s) _
          ((reject_high_risk-tables fraud s).0 ∙ load_sender-tables w)
          λ u passed.
            let s' = (reject_high_risk p q fraud s).1 in
            completed-Ends w.tables fraud (attempts 3 0 (once fraud) s')
              ((reject_high_risk-tables fraud s).1 (passed))
              (subst
                (λ t.
                  Commits fraud t (attempts 3 0 (once fraud) s').0
                    (attempts 3 0 (once fraud) s').1.tables)
                ((reject_high_risk-tables fraud s).0 ∙ load_sender-tables w)
                (attempts-Commits fraud s'))
