-- ===== src/Kafka.antt =====
-- packages/kafka/producer.ts, and the events of packages/types/index.ts. The broker is not part of
-- the repository: whether it takes an event is a parameter, and what it took is a list.
pub mod Consumer
use settlr.Prelude.{ℕ, suc, Bool, true, false, Option, List, [], ◌∷◌, ◌++◌, String, if◌then◌else◌}
use settlr.Errors.{Error, fault, Fault, Result, ok, err}
use settlr.Database.{FraudAction, RuleName}

-- KafkaTopics
pub data Topic : Type 0 where
  payment_initiated payment_completed payment_failed payment_fraud_blocked : Topic
  fraud_check_requested fraud_check_result webhook_delivery_failed : Topic

-- The payloads that the services publish.
pub data EventData : Type 0 where
  completed :
      (transaction_id from_account_id to_account_id : String) (amount : ℕ) (currency : String)
      (description : Option String) (fraud_score : ℕ) (fraud_action : FraudAction)
      (trace_id : String)
      → EventData
  failed :
      (idempotency_key from_account_id to_account_id : String) (amount : ℕ) (reason : Error)
      (trace_id : String)
      → EventData
  blocked :
      (trace_id from_account_id to_account_id : String) (amount : ℕ) (currency : String)
      (description : Option String) (fraud_score : ℕ) (fraud_action : FraudAction)
      (signals : List RuleName)
      → EventData
  delivery_failed :
      (delivery_id endpoint_id event_type : String) (attempt_number : ℕ) (response_code : Option ℕ)
      → EventData

-- IKafkaEvent; the version is always "1.0", and `key` is the message key.
pub record KafkaEvent : Type 0 where
  pub event_id : String
  pub event_type : Topic
  pub timestamp : ℕ
  pub trace_id : String
  pub content : EventData

-- The messages that the broker took, oldest first, and the number of event ids drawn.
pub record Outbox : Type 0 where
  pub sent : List KafkaEvent
  pub drawn : ℕ

module _ (random_uuid : ℕ → String) (now : ℕ) (takes : KafkaEvent → Bool) where
  abbrev envelope : Topic → EventData → String → Outbox → KafkaEvent
  envelope topic content trace_id o = record {
    event_id = random_uuid o.drawn;
    event_type = topic;
    timestamp = now;
    trace_id = trace_id;
    content = content;
  }

  -- publishEvent: the error of a failed send is thrown again.
  unfoldable pub publish_event : Topic → EventData → String → Outbox → Result (Unit {0}) × Outbox
  publish_event topic content trace_id o =
      let e = envelope topic content trace_id o in
      if takes e
      then (ok tt, record { sent = o.sent ++ e ∷ []; drawn = suc o.drawn })
      else (err (fault Fault.kafka_error), record o { drawn = suc o.drawn })
