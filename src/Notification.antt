-- ===== src/Notification.antt =====
-- services/notification-service/src/emailService.ts: the mails that the events cause. A mail is its
-- template with the values filled in; a property that an event does not carry is `none`, which the
-- template prints as "undefined". The reply of the mail provider and formatPaise are parameters.
pub mod Blocked
use settlr.Prelude.{
  ℕ, suc, Bool, true, false, Option, none, some, List, [], ◌∷◌, ◌++◌, String, if◌then◌else◌,
}
use settlr.Errors.{fault, Fault, Result, ok, err}
use settlr.Action.{Action, pure, ◌>>=◌, ◌>>◌}
use settlr.Kafka.{Topic, EventData, KafkaEvent}

-- sender-, recipient- and webhook-owner- with the id that follows.
pub data Address : Type 0 where
  sender recipient webhook_owner : Option String → Address

pub data Mail : Type 0 where
  confirmation :
      (to : Address) (amount : String) (transaction_id to_account_id : Option String) (date : ℕ)
      → Mail
  receipt :
      (to : Address) (amount : String) (transaction_id from_account_id : Option String) (date : ℕ)
      → Mail
  failure :
      (to : Address) (amount : String) (transaction_id to_account_id : Option String)
      (reason : String)
      → Mail
  blocked_alert :
      (to : Address) (amount : String) (transaction_id to_account_id : Option String) → Mail
  delivery_failure :
      (to : Address) (endpoint_id delivery_id url event_type : Option String) (attempts : Option ℕ)
      → Mail

-- What `fetch` and `response.json()` make of the n-th request.
pub data PostResult : Type 0 where
  accepted refused thrown : PostResult

pub record MailService : Type 0 where
  pub has_api_key : Bool
  pub post : ℕ → Mail → PostResult
  pub format_paise : Option ℕ → String

-- The requests to the provider, oldest first, and their number.
pub record Mailbox : Type 0 where
  pub requests : List Mail
  pub count : ℕ

-- The properties that the handlers read. No event has `id`, `createdAt`, `failureReason`, `url` or
-- `attempts`.
abbrev pub read_from : EventData → Option String
read_from (EventData.completed i f t n c d s a r) = some f
read_from (EventData.failed k f t n e r) = some f
read_from (EventData.blocked r f t n c d s a g) = some f
read_from (EventData.delivery_failed d e t n c) = none

abbrev pub read_to : EventData → Option String
read_to (EventData.completed i f t n c d s a r) = some t
read_to (EventData.failed k f t n e r) = some t
read_to (EventData.blocked r f t n c d s a g) = some t
read_to (EventData.delivery_failed d e t n c) = none

abbrev pub read_amount : EventData → Option ℕ
read_amount (EventData.completed i f t n c d s a r) = some n
read_amount (EventData.failed k f t n e r) = some n
read_amount (EventData.blocked r f t n c d s a g) = some n
read_amount (EventData.delivery_failed d e t n c) = none

abbrev pub read_endpoint : EventData → Option String
read_endpoint (EventData.delivery_failed d e t n c) = some e
read_endpoint _ = none

abbrev pub read_delivery : EventData → Option String
read_delivery (EventData.delivery_failed d e t n c) = some d
read_delivery _ = none

abbrev pub read_event_type : EventData → Option String
read_event_type (EventData.delivery_failed d e t n c) = some t
read_event_type _ = none

module _ (v : MailService) where
  -- An answer that is not ok is only logged.
  abbrev pub replied : PostResult → Mailbox → Result (Unit {0}) × Mailbox
  replied PostResult.accepted s = (ok tt, s)
  replied PostResult.refused s = (ok tt, s)
  replied PostResult.thrown s = (err (fault Fault.no_endpoint), s)

  -- sendEmail
  unfoldable pub send_email : Mail → Action Mailbox (Unit {0})
  send_email mail s =
      if v.has_api_key
      then replied (v.post s.count mail)
          (record { requests = s.requests ++ mail ∷ []; count = suc s.count })
      else (ok tt, s)

  unfoldable pub handle_payment_completed : KafkaEvent → Action Mailbox (Unit {0})
  handle_payment_completed event = do
    let tx = event.content
    let amount = v.format_paise (read_amount tx)
    send_email
        (Mail.confirmation (Address.sender (read_from tx)) amount none (read_to tx) event.timestamp)
    send_email
        (Mail.receipt (Address.recipient (read_to tx)) amount none (read_from tx) event.timestamp)

  unfoldable pub handle_payment_failed : KafkaEvent → Action Mailbox (Unit {0})
  handle_payment_failed event =
      let tx = event.content in
      send_email (
        Mail.failure (Address.sender (read_from tx)) (v.format_paise (read_amount tx)) none
          (read_to tx) "Unknown")

  unfoldable pub handle_payment_fraud_blocked : KafkaEvent → Action Mailbox (Unit {0})
  handle_payment_fraud_blocked event =
      let tx = event.content in
      send_email (
        Mail.blocked_alert (Address.sender (read_from tx)) (v.format_paise (read_amount tx)) none
          (read_to tx))

  unfoldable pub handle_webhook_delivery_failed : KafkaEvent → Action Mailbox (Unit {0})
  handle_webhook_delivery_failed event =
      let payload = event.content in
      send_email (
        Mail.delivery_failure (Address.webhook_owner (read_endpoint payload))
          (read_endpoint payload) (read_delivery payload) none (read_event_type payload) none)

  -- The subscriptions of index.ts.
  abbrev pub handle_event : Topic → KafkaEvent → Action Mailbox (Unit {0})
  handle_event Topic.payment_completed event = handle_payment_completed event
  handle_event Topic.payment_failed event = handle_payment_failed event
  handle_event Topic.payment_fraud_blocked event = handle_payment_fraud_blocked event
  handle_event Topic.webhook_delivery_failed event = handle_webhook_delivery_failed event
  handle_event _ event = pure tt

  -- Events one after the other; the error of a handler goes no further.
  unfoldable pub notify : List KafkaEvent → Mailbox → Mailbox
  notify [] s = s
  notify (event ∷ events) s = notify events (handle_event event.event_type event s).1
