-- ===== src/Payment/Initiate/Replay.antt =====
-- A payment that is made again with the same idempotency key.
use settlr.Prelude.{
  ◌≡◌, ◌≢◌, inl, inr, sym, ◌∙◌, ap, subst, true, false, none, some, Option-cases, arith,
}
use settlr.Errors.{ok}
use settlr.Redis.{Key}
use settlr.Payment.{PaymentParams, PaymentResult, Platform}
use settlr.Payment.Initiate.{State, idempotency_get, initiate_payment}
use settlr.Payment.Initiate.Cache.{initiate_payment-Caches}

-- A payment whose key holds the text of a transaction replays it.
replays :
    (p : Platform) (q : PaymentParams) (r : PaymentResult) (w : State p)
    → p.redis.value (Key.idempotency q.idempotency_key) w.store ≡ some (p.stringify r.transaction)
    → p.parse (p.stringify r.transaction) ≡ some r.transaction
    → (p.redis.get (Key.idempotency q.idempotency_key) w.store).0 ≢ none
    → ((initiate_payment p q w).0
        ≡ ok (record { transaction = r.transaction; from_cache = true; status_code = 200 }))
      × ((initiate_payment p q w).1.tables ≡ w.tables)
      × ((initiate_payment p q w).1.outbox ≡ w.outbox)
unfolding initiate_payment idempotency_get
replays p q r w cached reads answers =
    elim (Option-cases (p.redis.get (Key.idempotency q.idempotency_key) w.store).0) [
      | inl gone ↦ absurd (answers gone)
      | inr (v, got) ↦
          let found = p.redis.get-value (Key.idempotency q.idempotency_key) w.store got in
          ground arith
    ]

-- A request whose first attempt returned a fresh result and is made again with the same idempotency
-- key, while the cache still answers and JSON reads back what it wrote, returns the transaction of
-- the first, marked as cached, with status 200; no table changes and no event is published.
pub initiate_payment-replay :
    (p : Platform) (q q' : PaymentParams) (w : State p) (r : PaymentResult)
    → (initiate_payment p q w).0 ≡ ok r
    → r.from_cache ≡ false
    → q'.idempotency_key ≡ q.idempotency_key
    → p.parse (p.stringify r.transaction) ≡ some r.transaction
    → (p.redis.get (Key.idempotency q.idempotency_key) (initiate_payment p q w).1.store).0 ≢ none
    → let w' = (initiate_payment p q w).1 in
      ((initiate_payment p q' w').0
        ≡ ok (record { transaction = r.transaction; from_cache = true; status_code = 200 }))
      × ((initiate_payment p q' w').1.tables ≡ w'.tables)
      × ((initiate_payment p q' w').1.outbox ≡ w'.outbox)
initiate_payment-replay p q q' w r h fresh same reads answers =
    replays p q' r (initiate_payment p q w).1
      (ap (λ k. p.redis.value (Key.idempotency k) (initiate_payment p q w).1.store) same
        ∙ initiate_payment-Caches p q w r h fresh)
      reads
      (subst (λ k. (p.redis.get (Key.idempotency k) (initiate_payment p q w).1.store).0 ≢ none)
        (sym same) answers)
