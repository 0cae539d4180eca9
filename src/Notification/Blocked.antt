-- ===== src/Notification/Blocked.antt =====
-- The mails about a payment that the fraud check blocks.
use settlr.Prelude.{ℕ, suc, map, [], ◌∷◌, ◌++◌}
use settlr.Errors.{app}
use settlr.Errors.Factory
use settlr.Kafka.{Topic, EventData, KafkaEvent}
use settlr.Payment.{PaymentParams, FraudResult, Platform}
use settlr.Payment.Initiate.{State}

module _ (p : Platform) (q : PaymentParams) where
  -- What the fraud check and the catch publish.
  abbrev blocked_event : FraudResult → ℕ → KafkaEvent
  blocked_event fraud drawn = record {
    event_id = p.random_uuid drawn;
    event_type = Topic.payment_fraud_blocked;
    timestamp = p.now;
    trace_id = q.trace_id;
    content =
        EventData.blocked q.trace_id q.from_account_id q.to_account_id q.amount q.currency
          q.description fraud.score fraud.action (map (λ s. s.rule_name) fraud.signals);
  }

  abbrev failed_event : FraudResult → ℕ → KafkaEvent
  failed_event fraud drawn = record {
    event_id = p.random_uuid drawn;
    event_type = Topic.payment_failed;
    timestamp = p.now;
    trace_id = q.trace_id;
    content =
        EventData.failed q.idempotency_key q.from_account_id q.to_account_id q.amount
          (app (Factory.fraud_blocked fraud.score)) q.trace_id;
  }

  abbrev rejected : FraudResult → State p → State p
  rejected fraud s = record s {
    outbox = record {
      sent = s.outbox.sent ++ blocked_event fraud s.outbox.drawn ∷ [];
      drawn = suc s.outbox.drawn;
    };
  }
