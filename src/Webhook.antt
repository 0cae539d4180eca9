-- ===== src/Webhook.antt =====
-- services/webhook-service: its tables, what it runs on, and signer.ts.
pub mod Repository
pub mod Rows
pub mod Dispatcher
pub mod RetryWorker
pub mod Handlers
use settlr.Prelude.{◌≡◌, ℕ, suc, Bool, true, false, Option, List, String}
use settlr.Errors.{fault, Fault, Result, ok, err}
use settlr.Action.{Action}
use settlr.Kafka.{KafkaEvent, Outbox}

pub data DeliveryStatus : Type 0 where
  pending delivered retrying failed : DeliveryStatus

-- IWebhookEndpointRow
pub record EndpointRow : Type 0 where
  pub id : String
  pub user_id : String
  pub url : String
  pub secret : String
  pub events : List String
  pub is_active : Bool
  pub created_at : ℕ

-- IWebhookDeliveryRow without response_body, which nothing writes. The payload is its JSON text.
pub record DeliveryRow : Type 0 where
  pub id : String
  pub endpoint_id : String
  pub transaction_id : Option String
  pub event_type : String
  pub payload : String
  pub status : DeliveryStatus
  pub attempt_number : ℕ
  pub response_code : Option ℕ
  pub next_retry_at : Option ℕ
  pub delivered_at : Option ℕ
  pub created_at : ℕ

-- The headers of a webhook request that are not fixed.
pub record Headers : Type 0 where
  pub signature : String
  pub event : String
  pub delivery : String
  pub timestamp : ℕ

-- A POST to a registered URL.
pub record Post : Type 0 where
  pub url : String
  pub headers : Headers
  pub body : String

-- What is not part of the repository: HMAC-SHA256 of a secret and a payload, as "sha256=" and the
-- digest; secrets, each "whsec_" with 64 random hexadecimal digits, and uuids; the text of a payload that was stored as JSONB;
-- whether the n-th statement is answered by PostgreSQL, and whether it took effect if it is not; the status that the n-th POST is answered
-- with, `none` if `fetch` throws or the timeout aborts it; the broker.
pub record Services : Type 0 where
  pub sign : String → String → String
  pub random_secret : ℕ → String
  pub random_uuid : ℕ → String
  pub reserialized : String → String
  pub answered : ℕ → Bool
  pub applied : ℕ → Bool
  pub fetch : ℕ → Post → Option ℕ
  pub takes : KafkaEvent → Bool

-- The two tables, the uuids drawn for their rows, the statements sent, the requests made, and the
-- events published.
pub record Hooks : Type 0 where
  pub endpoints : List EndpointRow
  pub deliveries : List DeliveryRow
  pub draws : ℕ
  pub statements : ℕ
  pub posted : List Post
  pub outbox : Outbox

-- buildWebhookHeaders, with signPayload
unfoldable pub build_webhook_headers : Services → ℕ → String → String → String → String → Headers
build_webhook_headers v now secret payload event_type delivery_id = record {
  signature = v.sign secret payload;
  event = event_type;
  delivery = delivery_id;
  timestamp = now;
}

abbrev pub counted : Hooks → Hooks
counted s = record s { statements = suc s.statements }

-- A statement that is not answered throws, whether or not it took effect.
abbrev pub answer {ℓ} : {A : Type ℓ} → Bool → Bool → Result A × Hooks → Hooks → Result A × Hooks
answer true applied done s = done
answer false true done s = (err (fault Fault.database_error), done.1)
answer false false done s = (err (fault Fault.database_error), s)

-- No statement takes effect without being answered.
abbrev pub IsLossless : Services → Type 0
IsLossless v = (n : ℕ) → v.answered n ≡ false → v.applied n ≡ false

abbrev pub statement {ℓ} : {A : Type ℓ} → Services → (Hooks → Result A × Hooks) → Action Hooks A
statement v f s =
    answer (v.answered s.statements) (v.applied s.statements) (f (counted s)) (counted s)
