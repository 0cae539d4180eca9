-- ===== src/Kafka/Consumer/Redelivery.antt =====
-- A message that is delivered more than once.
use settlr.Prelude.{
  suc, ◌+◌, ◌≤◌, ◌<◌, ◌≡◌, refl, ◌∙◌, ap, true, false, Option, none, some, List, [], ◌∷◌, ◌++◌,
  String, same_text, has, eq_iff, length, length-append, arith,
}
use settlr.Errors.{ok}
use settlr.Kafka.{Topic, KafkaEvent}
use settlr.Kafka.Consumer.{
  Message, Consumer, Handler, add, prune, read, dispatch, route, each_message, run,
}

has-append : (id : String) (xs ys : List String) → has id xs ≡ true → has id (xs ++ ys) ≡ true
has-append id [] ys h = cc
has-append id (x ∷ xs) ys h = ground (arith, has-append id xs ys)

has-append_self : (id : String) (xs : List String) → has id (xs ++ (id ∷ [])) ≡ true
has-append_self id [] = ground (arith, (eq_iff id id).1 refl)
has-append_self id (x ∷ xs) = ground (arith, has-append_self id xs)

-- Adding one id to a set of fewer than ten thousand keeps the ids that are there.
prune-add :
    (j id : String) (ids : List String)
    → length ids < 10000
    → (has j ids ≡ true → has j (prune (add id ids)) ≡ true)
      × (has id (prune (add id ids)) ≡ true)
      × (length (prune (add id ids)) ≤ suc (length ids))
prune-add j id ids small =
    ground (arith, length-append ids (id ∷ []), has-append j ids (id ∷ []), has-append_self id ids)

module _ {H : Type 0} (parse : String → Option KafkaEvent)
    (handlers : Topic → Option (Handler H)) where
  abbrev Keeps : String → Consumer H → Consumer H → Type 0
  Keeps j c c' =
      (has j c.processed_event_ids ≡ true → has j c'.processed_event_ids ≡ true)
      × (length c'.processed_event_ids ≤ suc (length c.processed_event_ids))

  dispatch-Keeps :
      (j : String) (handler : Handler H) (o : Option KafkaEvent) (c : Consumer H)
      → length c.processed_event_ids < 10000
      → Keeps j c (dispatch parse handlers handler o c)
  dispatch-Keeps j handler none c small = (λ h. h, omega arith)
  dispatch-Keeps j handler (some event) c small =
      ground (arith, prune-add j event.event_id c.processed_event_ids small)

  route-Keeps :
      (j : String) (o : Option (Handler H)) (m : Message) (c : Consumer H)
      → length c.processed_event_ids < 10000
      → Keeps j c (route parse handlers o m c)
  route-Keeps j none m c small = (λ h. h, omega arith)
  route-Keeps j (some handler) m c small =
      dispatch-Keeps j handler (read parse handlers m.raw) c small

  each_message-Keeps :
      (j : String) (m : Message) (c : Consumer H)
      → length c.processed_event_ids < 10000
      → Keeps j c (each_message parse handlers m c)
  unfolding each_message
  each_message-Keeps j m c small = route-Keeps j (handlers m.topic) m c small

  run-keeps :
      (j : String) (ms : List Message) (c : Consumer H)
      → length c.processed_event_ids + length ms ≤ 10000
      → has j c.processed_event_ids ≡ true
      → has j (run parse handlers ms c).processed_event_ids ≡ true
  unfolding run
  run-keeps j [] c small h = h
  run-keeps j (m ∷ ms) c small h =
      let kept = each_message-Keeps j m c (omega arith) in
      run-keeps j ms (each_message parse handlers m c) (omega (arith, kept)) (kept.0 h)

  -- The event of a message whose handler returns is in the set afterwards.
  handled :
      (event : KafkaEvent) (handler : Handler H) (c : Consumer H)
      → (handler event c.service).0 ≡ ok tt
      → length c.processed_event_ids < 10000
      → has event.event_id (dispatch parse handlers handler (some event) c).processed_event_ids
        ≡ true
  handled event handler c returned small =
      ground (arith, prune-add event.event_id event.event_id c.processed_event_ids small)

  routed-dispatch :
      (m : Message) (raw : String) (event : KafkaEvent) (handler : Handler H) (c : Consumer H)
      → handlers m.topic ≡ some handler
      → m.raw ≡ some raw
      → same_text raw "" ≡ false
      → parse raw ≡ some event
      → each_message parse handlers m c ≡ dispatch parse handlers handler (some event) c
  unfolding each_message
  routed-dispatch m raw event handler c routed there text parsed = ground (arith)

  -- Once the handler of an event has returned, a message with that event is dropped, whatever up to
  -- 10,000 messages, counted with the ids already held, came in between.
  pub redelivery-dropped :
      (m : Message) (raw : String) (event : KafkaEvent) (handler : Handler H) (ms : List Message)
      (c : Consumer H)
      → handlers m.topic ≡ some handler
      → m.raw ≡ some raw
      → (same_text raw "" ≡ false)
      → parse raw ≡ some event
      → (handler event c.service).0 ≡ ok tt
      → length c.processed_event_ids + suc (length ms) ≤ 10000
      → let c' = run parse handlers (m ∷ ms) c in each_message parse handlers m c' ≡ c'
  unfolding run each_message
  redelivery-dropped m raw event handler ms c routed there text parsed returned small =
      let routes =
        λ (x : Consumer H). routed-dispatch m raw event handler x routed there text parsed in
      let first = each_message parse handlers m c in
      let c' = run parse handlers ms first in
      let count = each_message-Keeps "" m c (omega arith) in
      let marked =
        ap (λ (x : Consumer H). has event.event_id x.processed_event_ids) (routes c)
        ∙ handled event handler c returned (omega arith) in
      let still = run-keeps event.event_id ms first (omega (arith, count)) marked in
      routes c' ∙ ground (arith, still)
