-- ===== src/Payment/Initiate.antt =====
-- payment.service.ts: runFraudCheck and initiatePayment, and services/idempotency.service.ts.
-- Log lines are left out. The fire-and-forget publication is made at the point where it is started.
pub mod Atomic
pub mod Outcome
pub mod Returned
pub mod Cache
pub mod Invalidation
pub mod Replay
use settlr.Prelude.{
  ℕ, Bool, true, false, ◌||◌, not, List, [], ◌∷◌, Option, none, some, String, map, ltb, same_text,
  if◌then◌else◌,
}
use settlr.Errors.{Error, app, fault, Fault, Result, ok, err}
use settlr.Errors.Factory
use settlr.Action.{
  Action, ◌>>=◌, ◌>>◌, pure, throw, throw_if, or_throw, try_catch, try_finally, settle,
}
use settlr.Redis.{Redis, Key, command}
use settlr.Redis.Lock.{acquire_account_locks, release_all_locks}
use settlr.Database.{AccountRow, TransactionRow, FraudAction, Tables}
use settlr.Kafka.{Topic, EventData, Outbox, publish_event}
use settlr.Payment.{
  PaymentParams, FraudSignal, FraudResult, FraudRequest, PaymentResult, Platform, World, on_store,
  on_tables, on_outbox, transaction,
}
use settlr.Payment.Repository.{select_account}
use settlr.Payment.Transfer.{transfer, recipient_not_found}
use settlr.Payment.Attempts.{attempts}

-- config.minTransferAmountPaise
abbrev pub min_transfer_amount_paise : ℕ
min_transfer_amount_paise = 1

-- config.maxTransferAmountPaise
abbrev pub max_transfer_amount_paise : ℕ
max_transfer_amount_paise = 1000000000

-- action === 'decline' || action === 'challenge'
abbrev pub blocks : FraudAction → Bool
blocks FraudAction.decline = true
blocks FraudAction.challenge = true
blocks FraudAction.approve = false
blocks FraudAction.review = false

module _ (p : Platform) where
  open p use {
    redis, check_fraud, takes, stringify, parse, idempotency_ttl_seconds, random_uuid, now,
  }

  abbrev pub State : Type 0
  State = World redis.Store

  abbrev publish : Topic → EventData → String → Action State (Unit {0})
  publish topic content trace_id =
      on_outbox (publish_event random_uuid now takes topic content trace_id)

  -- JSON.parse(cached)
  abbrev parse_cached : Option String → Action State (Option TransactionRow)
  parse_cached none = pure none
  parse_cached (some text) = do
    t ← or_throw (parse text) (fault Fault.malformed_json)
    pure (some t)

  -- idempotencyService.get
  unfoldable pub idempotency_get : String → Action State (Option TransactionRow)
  idempotency_get k = on_store (command (redis.get (Key.idempotency k))) >>= parse_cached

  -- idempotencyService.set
  unfoldable pub idempotency_set : String → TransactionRow → Action State (Unit {0})
  idempotency_set k t =
      on_store (command (redis.setex (Key.idempotency k) idempotency_ttl_seconds (stringify t)))

  abbrev or_approve : Option FraudResult → FraudResult
  or_approve (some r) = r
  or_approve none = record { score = 0; action = FraudAction.approve; signals = [] }

  -- runFraudCheck: if the request fails, the payment is approved with score 0.
  unfoldable pub run_fraud_check : PaymentParams → AccountRow → FraudResult
  run_fraud_check q sender = or_approve (
      check_fraud (record {
        from_account_id = q.from_account_id;
        to_account_id = q.to_account_id;
        amount = q.amount;
        account_created_at = sender.created_at;
        trace_id = q.trace_id;
      }))

  -- Step 1b.
  unfoldable pub validate : PaymentParams → Action State (Unit {0})
  validate q = do
    throw_if (ltb q.amount min_transfer_amount_paise) (app Factory.validation)
    throw_if (ltb max_transfer_amount_paise q.amount) (app Factory.validation)
    throw_if (same_text q.from_account_id q.to_account_id) (app Factory.validation)

  -- Step 3: both accounts are read, then the sender is checked, then the recipient.
  unfoldable pub load_sender : PaymentParams → Action State AccountRow
  load_sender q = do
    sender ← on_tables (select_account p q.from_account_id)
    recipient ← on_tables (select_account p q.to_account_id)
    sender_account ← or_throw sender (app Factory.not_found)
    or_throw recipient recipient_not_found
    pure sender_account

  -- Step 4.
  unfoldable pub reject_high_risk : PaymentParams → FraudResult → Action State (Unit {0})
  reject_high_risk q fraud =
      if blocks fraud.action
      then (do
        publish Topic.payment_fraud_blocked
            (EventData.blocked q.trace_id q.from_account_id q.to_account_id q.amount q.currency
              q.description fraud.score fraud.action (map (λ s. s.rule_name) fraud.signals))
            q.trace_id
        throw (app (Factory.fraud_blocked fraud.score)))
      else pure tt

  -- The read caches of both accounts: stats, the 7-day chart, and the first pages.
  abbrev pub stale_keys : PaymentParams → List Key
  stale_keys q =
      Key.cache_stats q.from_account_id
      ∷ Key.cache_stats q.to_account_id
      ∷ Key.cache_chart q.from_account_id 7
      ∷ Key.cache_chart q.to_account_id 7
      ∷ Key.cache_txns q.from_account_id 1 20
      ∷ Key.cache_txns q.to_account_id 1 20
      ∷ Key.cache_ledger q.from_account_id 1 20
      ∷ Key.cache_ledger q.to_account_id 1 20
      ∷ []

  -- One DEL for each key, all of which are sent even if one fails.
  unfoldable pub invalidate : List Key → Action State (Unit {0})
  invalidate [] = pure tt
  invalidate (k ∷ ks) = try_finally (on_store (command (redis.del k))) (invalidate ks)

  -- Steps 15 to 17, after the commit.
  unfoldable pub complete :
      PaymentParams → FraudResult → TransactionRow → Action State PaymentResult
  unfolding idempotency_set
  complete q fraud t = do
    idempotency_set q.idempotency_key t
    invalidate (stale_keys q)
    settle (
        publish Topic.payment_completed
          (EventData.completed t.id q.from_account_id q.to_account_id q.amount q.currency
            q.description fraud.score fraud.action q.trace_id)
          q.trace_id)
    pure (record { transaction = t; from_cache = false; status_code = 201 })

  -- Steps 3 to 17: what runs while the locks are held.
  unfoldable pub locked_payment : PaymentParams → Action State PaymentResult
  locked_payment q = do
    sender ← load_sender q
    let fraud = run_fraud_check q sender
    reject_high_risk q fraud
    t ← attempts 3 0 (on_tables (transaction (transfer p q fraud)))
    complete q fraud t

  -- The `catch`: the failure is published, and the error is thrown again.
  unfoldable pub report_failure : PaymentParams → Error → Action State PaymentResult
  report_failure q e = do
    settle (
        publish Topic.payment_failed
          (EventData.failed q.idempotency_key q.from_account_id q.to_account_id q.amount e
            q.trace_id)
          q.trace_id)
    throw e

  -- The `try` with its `catch` and its `finally`, under the given locks.
  abbrev pub guarded : List Key → PaymentParams → Action State PaymentResult
  guarded locks q =
      try_finally (try_catch (locked_payment q) (report_failure q))
        (on_store (release_all_locks redis locks))

  -- Steps 1b to 17.
  unfoldable pub fresh_payment : PaymentParams → Action State PaymentResult
  fresh_payment q = do
    validate q
    locks ← on_store (acquire_account_locks redis q.from_account_id q.to_account_id 10)
    throw_if (not locks.acquired) (app Factory.account_locked)
    guarded locks.lock_keys q

  abbrev pub replay_or : PaymentParams → Option TransactionRow → Action State PaymentResult
  replay_or q (some t) = pure (record { transaction = t; from_cache = true; status_code = 200 })
  replay_or q none = fresh_payment q

  unfoldable pub initiate_payment : PaymentParams → Action State PaymentResult
  initiate_payment q = idempotency_get q.idempotency_key >>= replay_or q
