-- ===== src/Tests/Kafka.antt =====
-- A message that is delivered twice, with another one in between.
use settlr.Prelude.{ℕ, suc, ◌≡◌, refl, [], ◌∷◌, Option, some, String, arith}
use settlr.Errors.{fault, Fault, ok}
use settlr.Kafka.{Topic, EventData, KafkaEvent}
use settlr.Kafka.Consumer.{Message, Consumer, Handler, each_message, run}
use settlr.Kafka.Consumer.Redelivery.{redelivery-dropped}

-- The text of a message is the id of its event.
abbrev parse : String → Option KafkaEvent
parse text = some (record {
  event_id = text;
  event_type = Topic.payment_completed;
  timestamp = 0;
  trace_id = "t";
  content = EventData.failed "k" "a" "b" 1 (fault Fault.redis_error) "t";
})

-- The handler counts the events.
abbrev counting : Handler ℕ
counting event n = (ok tt, suc n)

abbrev handlers : Topic → Option (Handler ℕ)
handlers topic = some counting

abbrev message : String → Message
message text = record { topic = Topic.payment_completed; raw = some text }

abbrev event : KafkaEvent
event = record {
  event_id = "1";
  event_type = Topic.payment_completed;
  timestamp = 0;
  trace_id = "t";
  content = EventData.failed "k" "a" "b" 1 (fault Fault.redis_error) "t";
}

abbrev fresh : Consumer ℕ
fresh = record { processed_event_ids = []; service = 0 }

redelivery-dropped_example :
    let c' = run parse handlers (message "1" ∷ message "2" ∷ []) fresh in
    each_message parse handlers (message "1") c' ≡ c'
redelivery-dropped_example =
    redelivery-dropped parse handlers (message "1") "1" event counting (message "2" ∷ []) fresh refl
      refl refl refl refl (omega arith)
