-- ===== src/Payment.antt =====
-- services/payment-service: the parameters of a payment, what the service runs on, and the state
-- that a payment reads and writes.
pub mod Repository
pub mod Transfer
pub mod Attempts
pub mod Query
pub mod Initiate
pub mod Handler
pub mod Listing
use settlr.Prelude.{ℕ, Bool, Option, List, String}
use settlr.Errors.{Result, ok, err}
use settlr.Action.{Action}
use settlr.Redis.{Redis}
use settlr.Database.{TransactionRow, FraudAction, RuleName, SignalData, Tables}
use settlr.Kafka.{KafkaEvent, Outbox}

-- IInitiatePaymentParams; the handler has made `amount` a positive integer.
pub record PaymentParams : Type 0 where
  pub idempotency_key : String
  pub from_account_id : String
  pub to_account_id : String
  pub amount : ℕ
  pub currency : String
  pub description : Option String
  pub user_id : String
  pub trace_id : String

-- IFraudSignal, of which the rules leave id, transactionId and createdAt empty.
pub record FraudSignal : Type 0 where
  pub rule_name : RuleName
  pub score_added : ℕ
  pub signal_data : SignalData

-- IFraudResult
pub record FraudResult : Type 0 where
  pub score : ℕ
  pub action : FraudAction
  pub signals : List FraudSignal

-- The body of POST /fraud/check.
pub record FraudRequest : Type 0 where
  pub from_account_id : String
  pub to_account_id : String
  pub amount : ℕ
  pub account_created_at : ℕ
  pub trace_id : String

-- IResult<ITransaction>. `toCamelCase` renames the columns of a row; the record is the same.
pub record PaymentResult : Type 0 where
  pub transaction : TransactionRow
  pub from_cache : Bool
  pub status_code : ℕ

-- What is not part of the repository: Redis; PostgreSQL's reading of a uuid literal, which is `none`
-- for a text that is no uuid, its uuids and its clock, and the rows that other sessions have locked;
-- the reply of fraud-service, which is `none` if the request fails; the broker; JSON.
pub record Platform : Type 1 where
  pub redis : Redis
  pub canon : String → Option String
  pub row_locked : String → Bool
  pub random_uuid : ℕ → String
  pub now : ℕ
  pub check_fraud : FraudRequest → Option FraudResult
  pub takes : KafkaEvent → Bool
  pub stringify : TransactionRow → String
  pub parse : String → Option TransactionRow
  pub idempotency_ttl_seconds : ℕ

pub record World (S : Type 0) : Type 0 where
  pub store : S
  pub tables : Tables
  pub outbox : Outbox

module _ {ℓ} {S : Type 0} {A : Type ℓ} where
  abbrev pub on_store : Action S A → Action (World S) A
  on_store m w = let (r, s) = m w.store in (r, record w { store = s })

  abbrev pub on_tables : Action Tables A → Action (World S) A
  on_tables m w = let (r, t) = m w.tables in (r, record w { tables = t })

  abbrev pub on_outbox : Action Outbox A → Action (World S) A
  on_outbox m w = let (r, o) = m w.outbox in (r, record w { outbox = o })

abbrev pub end_transaction {ℓ} : {A : Type ℓ} → Tables → Result A × Tables → Result A × Tables
end_transaction before (ok a, t) = (ok a, t)
end_transaction before (err e, t) = (err e, before)

-- `db.transaction(callback)`: COMMIT if the callback returns, ROLLBACK if it throws.
abbrev pub transaction {ℓ} : {A : Type ℓ} → Action Tables A → Action Tables A
transaction m t = end_transaction t (m t)
