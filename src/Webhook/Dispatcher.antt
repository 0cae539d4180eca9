-- ===== src/Webhook/Dispatcher.antt =====
-- dispatcher.ts. Log lines are left out. `now` is the time of the call in milliseconds.
pub mod Attempts
pub mod Steps
pub mod Overlap
use settlr.Prelude.{
  ℕ, ◌+◌, ◌-◌, ◌*◌, Bool, true, false, not, ◌&&◌, Option, none, some, List, [], ◌∷◌, ◌++◌, String,
  leb, if◌then◌else◌, length, get_elem?,
}
use settlr.Errors.{Error, Result, ok, err}
use settlr.Action.{Action, pure, ◌>>=◌, ◌>>◌, try_catch, settle}
use settlr.Kafka.{Topic, EventData, publish_event}
use settlr.Webhook.{EndpointRow, DeliveryRow, Services, Hooks, Post, build_webhook_headers}
use settlr.Webhook.Repository.{
  find_by_id, find_active_by_event, create_delivery, mark_delivered, schedule_retry, mark_failed,
}

-- config.webhookRetryDelays, in seconds
abbrev pub retry_delays_seconds : List ℕ
retry_delays_seconds = 30 ∷ 300 ∷ 1800 ∷ 7200 ∷ []

-- response.ok
abbrev pub is_ok : ℕ → Bool
is_ok status = leb 200 status && leb status 299

module _ (v : Services) (now : ℕ) where
  abbrev pub publish : Topic → EventData → String → Action Hooks (Unit {0})
  publish topic content trace_id s =
      let (r, o) = publish_event v.random_uuid now v.takes topic content trace_id s.outbox in
      (r, record s { outbox = o })

  -- The delay at an index; the source returns before it reads one that is not there.
  abbrev pub schedule_at : Option ℕ → DeliveryRow → Option ℕ → Action Hooks (Unit {0})
  schedule_at (some delay) delivery code = schedule_retry v delivery.id (now + delay * 1000) code
  schedule_at none delivery code = do
    mark_failed v delivery.id code
    settle (
        publish Topic.webhook_delivery_failed
          (EventData.delivery_failed delivery.id delivery.endpoint_id delivery.event_type
            delivery.attempt_number code)
          delivery.id)

  -- scheduleRetry; an attempt number is at least 1.
  unfoldable pub plan_retry : DeliveryRow → Option ℕ → Action Hooks (Unit {0})
  plan_retry delivery code =
      schedule_at (get_elem? retry_delays_seconds (delivery.attempt_number - 1)) delivery code

  abbrev pub request : DeliveryRow → EndpointRow → Post
  request delivery endpoint = record {
    url = endpoint.url;
    headers =
        build_webhook_headers v now endpoint.secret delivery.payload delivery.event_type
          delivery.id;
    body = delivery.payload;
  }

  -- fetch
  abbrev pub send : Post → Hooks → Option ℕ × Hooks
  send post s = (v.fetch (length s.posted) post, record s { posted = s.posted ++ (post ∷ []) })

  abbrev pub settle_response : DeliveryRow → ℕ → Action Hooks (Unit {0})
  settle_response delivery status =
      if is_ok status
      then mark_delivered v now delivery.id status
      else plan_retry delivery (some status)

  -- The body of the `try`, and its `catch`, which also takes the errors of the two updates.
  abbrev pub respond : DeliveryRow → Option ℕ × Hooks → Result (Unit {0}) × Hooks
  respond delivery (none, s) = plan_retry delivery none s
  respond delivery (some status, s) =
      try_catch (settle_response delivery status) (λ e. plan_retry delivery none) s

  -- attemptDelivery
  unfoldable pub attempt_delivery : DeliveryRow → EndpointRow → Action Hooks (Unit {0})
  attempt_delivery delivery endpoint s = respond delivery (send (request delivery endpoint) s)

  abbrev pub is_live : Option EndpointRow → Option EndpointRow
  is_live none = none
  is_live (some endpoint) = if endpoint.is_active then some endpoint else none

  abbrev pub retry_to : DeliveryRow → Option EndpointRow → Action Hooks (Unit {0})
  retry_to delivery none = mark_failed v delivery.id none
  retry_to delivery (some endpoint) = attempt_delivery delivery endpoint

  -- retryDelivery
  unfoldable pub retry_delivery : DeliveryRow → Action Hooks (Unit {0})
  retry_delivery delivery = do
    endpoint ← find_by_id v delivery.endpoint_id
    retry_to delivery (is_live endpoint)

  abbrev pub deliver_to : Option String → String → String → EndpointRow → Action Hooks (Unit {0})
  deliver_to transaction_id event_type payload endpoint = do
    delivery ← create_delivery v now endpoint.id transaction_id event_type payload
    attempt_delivery delivery endpoint

  -- The loop over the endpoints: the error of one is logged.
  unfoldable pub deliver_all :
      Option String → String → String → List EndpointRow → Action Hooks (Unit {0})
  deliver_all transaction_id event_type payload [] = pure tt
  deliver_all transaction_id event_type payload (endpoint ∷ endpoints) = do
    settle (deliver_to transaction_id event_type payload endpoint)
    deliver_all transaction_id event_type payload endpoints

  -- dispatchWebhook
  unfoldable pub dispatch_webhook : Option String → String → String → Action Hooks (Unit {0})
  unfolding deliver_all
  dispatch_webhook transaction_id event_type payload = do
    endpoints ← find_active_by_event v event_type
    deliver_all transaction_id event_type payload endpoints
