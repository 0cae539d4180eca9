-- ===== src/Payment/Initiate/Returned.antt =====
-- What holds of a fresh result and of what Redis holds, from the end of a payment to its answer: the
-- catch changes neither, and the release of the locks only frees their keys.
use settlr.Prelude.{
  ◌≡◌, refl, sym, subst, Bool, true, false, not, List, [], ◌∷◌, Option, none, some, String, arith,
}
use settlr.Errors.{Error, app, Result, ok, err}
use settlr.Errors.Factory
use settlr.Action.{Action, handle, conclude, after, throw_if, continue}
use settlr.Redis.{Key}
use settlr.Redis.Lock.{Locks, acquire_account_locks, release_all_locks}
use settlr.Redis.Lock.Laws.{acquire_account_locks-acquired}
use settlr.Database.{TransactionRow}
use settlr.Payment.{
  PaymentParams, FraudResult, PaymentResult, Platform, on_store, on_tables, transaction,
}
use settlr.Payment.Transfer.{transfer}
use settlr.Payment.Attempts.{attempts}
use settlr.Payment.Initiate.{
  State, idempotency_get, load_sender, run_fraud_check, reject_high_risk, complete, validate,
  locked_payment, report_failure, guarded, replay_or, fresh_payment, initiate_payment,
}

module _ (p : Platform) (q : PaymentParams) where
  open p use {redis}

  throw_if-passed :
      (b : Bool) (e : Error) (s : State p) → (throw_if {S = State p} b e s).0 ≡ ok tt → b ≡ false
  throw_if-passed true e s h = cc
  throw_if-passed false e s h = refl

  module _ (Q : PaymentResult → redis.Store → Type 0) where
    abbrev Holds : Result PaymentResult → redis.Store → Type 0
    Holds (ok r) s = Q r s
    Holds (err e) s = Unit {0}

    abbrev pub Gives : Result PaymentResult × State p → Type 0
    Gives o = Holds o.0 o.1.store

    continue-Gives :
        {A : Type 0} (o : Result A × State p) (k : A → Action (State p) PaymentResult)
        → ((a : A) → o.0 ≡ ok a → Gives (k a o.1))
        → Gives (continue o k)
    continue-Gives (ok a, s) k h = h a refl
    continue-Gives (err e, s) k h = tt

    after-Gives :
        (r : Result PaymentResult) (o : Result (Unit {0}) × State p)
        → Holds r o.1.store
        → Gives (after r o)
    after-Gives (ok x) (ok _, s) h = h
    after-Gives (ok x) (err y, s) h = tt
    after-Gives (err x) (ok _, s) h = tt
    after-Gives (err x) (err y, s) h = tt

    module _
        (completes : (fraud : FraudResult) (t : TransactionRow) (w : State p)
          → Gives (complete p q fraud t w))
        (frees : (a b : String) (r : PaymentResult) (s : redis.Store)
          → Q r s
          → Q r (release_all_locks redis (Key.account_lock a ∷ Key.account_lock b ∷ []) s).1) where
      locked_payment-Gives : (w : State p) → Gives (locked_payment p q w)
      unfolding locked_payment
      locked_payment-Gives w = continue-Gives (load_sender p q w) _ λ sender a.
          let s = (load_sender p q w).1 in
          let fraud = run_fraud_check p q sender in
          continue-Gives (reject_high_risk p q fraud s) _ λ u b.
            let s' = (reject_high_risk p q fraud s).1 in
            continue-Gives (attempts 3 0 (on_tables (transaction (transfer p q fraud))) s') _ λ t c.
              completes fraud t (attempts 3 0 (on_tables (transaction (transfer p q fraud))) s').1

      guarded-Gives :
          (a b : String) (w : State p)
          → Gives (guarded p (Key.account_lock a ∷ Key.account_lock b ∷ []) q w)
      unfolding report_failure
      guarded-Gives a b w = go (locked_payment p q w) (locked_payment-Gives w)
        where
          ks : List Key
          ks = Key.account_lock a ∷ Key.account_lock b ∷ []

          go :
              (o : Result PaymentResult × State p)
              → Gives o
              → Gives
                  (conclude (handle o (report_failure p q)) (on_store (release_all_locks redis ks)))
          go (ok r, s) h =
              after-Gives (ok r) (on_store (release_all_locks redis ks) s) (frees a b r s.store h)
          go (err e, s) h =
              after-Gives (err e) (on_store (release_all_locks redis ks) (report_failure p q e s).1)
                tt

      locked-Gives :
          (s : redis.Store) (locks : Locks) (w : State p)
          → (acquire_account_locks redis q.from_account_id q.to_account_id 10 s).0 ≡ ok locks
          → (not locks.acquired) ≡ false
          → Gives (guarded p locks.lock_keys q w)
      locked-Gives s locks w h won =
          let both =
            acquire_account_locks-acquired redis q.from_account_id q.to_account_id 10 s
              (Key.account_lock q.from_account_id) h (ground arith) in
          subst (λ ks. Gives (guarded p ks q w)) (sym both.0) (guarded-Gives _ _ w)

      fresh_payment-Gives : (w : State p) → Gives (fresh_payment p q w)
      unfolding fresh_payment
      fresh_payment-Gives w = continue-Gives (validate p q w) _ λ u v.
          let s = (validate p q w).1 in
          let acquire =
            on_store (acquire_account_locks redis q.from_account_id q.to_account_id 10) in
          continue-Gives (acquire s) _ λ locks a.
            let s' = (acquire s).1 in
            let held =
              throw_if {S = State p} (not locks.acquired) (app Factory.account_locked) s' in
            continue-Gives held _ λ x b.
              locked-Gives s.store locks held.1 a
                (throw_if-passed (not locks.acquired) (app Factory.account_locked) s' b)

      -- What every completed payment gives, and the release of two account locks keeps, holds of a
      -- fresh result when it is returned.
      pub initiate_payment-Gives :
          (w : State p) (r : PaymentResult)
          → (initiate_payment p q w).0 ≡ ok r
          → r.from_cache ≡ false
          → Q r (initiate_payment p q w).1.store
      unfolding initiate_payment
      initiate_payment-Gives w r h fresh = go (idempotency_get p q.idempotency_key w) h
        where
          go :
              (o : Result (Option TransactionRow) × State p)
              → (continue o (replay_or p q)).0 ≡ ok r
              → Q r (continue o (replay_or p q)).1.store
          go (ok none, s) e =
              subst (λ y. Holds y (fresh_payment p q s).1.store) e (fresh_payment-Gives s)
          go (ok (some t), s) e = absurd (ground arith)
          go (err x, s) e = cc
