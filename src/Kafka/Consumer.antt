-- ===== src/Kafka/Consumer.antt =====
-- packages/kafka/consumer.ts: the `eachMessage` callback of createConsumer, which runs one message
-- at a time, with its in-memory set of processed event ids. Log lines are left out. The handlers of
-- a service, with the state they act on, and JSON.parse are parameters.
pub mod Redelivery
use settlr.Prelude.{
  ℕ, Bool, true, false, Option, none, some, List, [], ◌∷◌, ◌++◌, String, ltb, same_text, has,
  if◌then◌else◌, length,
}
use settlr.Errors.{Result, ok, err}
use settlr.Action.{Action}
use settlr.Kafka.{Topic, KafkaEvent}

-- MAX_DEDUP_SET_SIZE
abbrev pub max_dedup_set_size : ℕ
max_dedup_set_size = 10000

-- What `eachMessage` reads of a message: its topic and its value as text.
pub record Message : Type 0 where
  pub topic : Topic
  pub raw : Option String

-- processedEventIds, and the state of the handlers.
pub record Consumer (H : Type 0) : Type 0 where
  pub processed_event_ids : List String
  pub service : H

-- Set.prototype.add; `has` is Set.prototype.has.
abbrev pub add : String → List String → List String
add id ids = if has id ids then ids else ids ++ (id ∷ [])

-- pruneDeduplicationSet
abbrev pub prune : List String → List String
prune ids = if ltb max_dedup_set_size (length ids) then [] else ids

abbrev pub Handler : Type 0 → Type 0
Handler H = KafkaEvent → Action H (Unit {0})

module _ {H : Type 0} (parse : String → Option KafkaEvent)
    (handlers : Topic → Option (Handler H)) where
  -- An event whose handler threw is not marked, and the error goes no further.
  abbrev pub mark : KafkaEvent → Result (Unit {0}) × H → Consumer H → Consumer H
  mark event (ok _, h) c = record {
    processed_event_ids = prune (add event.event_id c.processed_event_ids);
    service = h;
  }
  mark event (err e, h) c = record c { service = h }

  abbrev pub dispatch : Handler H → Option KafkaEvent → Consumer H → Consumer H
  dispatch handler none c = c
  dispatch handler (some event) c =
      if has event.event_id c.processed_event_ids then c else mark event (handler event c.service) c

  -- JSON.parse of a text that is there and not empty.
  abbrev pub read : Option String → Option KafkaEvent
  read none = none
  read (some raw) = if same_text raw "" then none else parse raw

  abbrev pub route : Option (Handler H) → Message → Consumer H → Consumer H
  route none m c = c
  route (some handler) m c = dispatch handler (read m.raw) c

  unfoldable pub each_message : Message → Consumer H → Consumer H
  each_message m c = route (handlers m.topic) m c

  unfoldable pub run : List Message → Consumer H → Consumer H
  run [] c = c
  run (m ∷ ms) c = run ms (each_message m c)
