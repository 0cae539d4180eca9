-- ===== src/Database.antt =====
-- The tables of packages/database/migrations and the row types of packages/types/index.ts. A uuid
-- column holds the text that PostgreSQL prints; a timestamp is a number of milliseconds; BIGINT is
-- read by the parser that packages/database/client.ts installs.
pub mod Accounts
use settlr.Prelude.{ℕ, ℤ, ◌^◌, ◌-◌, Bool, Option, List, String, ltb, if◌then◌else◌}
use settlr.Errors.{Fault, Error, fault, Result, ok, err}

pub data AccountStatus : Type 0 where
  active frozen closed : AccountStatus

pub record AccountRow : Type 0 where
  pub id : String
  pub user_id : String
  pub balance : ℕ
  pub currency : String
  pub status : AccountStatus
  pub version : ℕ
  pub created_at : ℕ
  pub updated_at : ℕ

pub data TransactionStatus : Type 0 where
  pending processing completed failed reversed : TransactionStatus

pub data FraudAction : Type 0 where
  approve review challenge decline : FraudAction

-- `metadata` holds the description, if there is one.
pub record TransactionRow : Type 0 where
  pub id : String
  pub idempotency_key : String
  pub from_account_id : String
  pub to_account_id : String
  pub amount : ℕ
  pub currency : String
  pub status : TransactionStatus
  pub failure_reason : Option String
  pub fraud_score : Option ℕ
  pub fraud_action : Option FraudAction
  pub metadata : Option String
  pub created_at : ℕ
  pub updated_at : ℕ

pub data EntryType : Type 0 where
  debit credit : EntryType

pub record LedgerEntryRow : Type 0 where
  pub id : String
  pub transaction_id : String
  pub account_id : String
  pub entry_type : EntryType
  pub amount : ℕ
  pub balance_before : ℕ
  pub balance_after : ℕ
  pub created_at : ℕ

-- The names that the six fraud rules write.
pub data RuleName : Type 0 where
  velocity_check amount_anomaly unusual_hour new_account round_amount recipient_risk : RuleName

-- The context that a rule records.
pub data SignalData : Type 0 where
  transactions_in_last_minute : ℕ → SignalData
  amount_and_average : ℕ → ℕ → SignalData
  hour_of_day : ℕ → SignalData
  account_age_in_days : ℤ → SignalData
  round_number : ℕ → SignalData
  unique_senders : ℕ → SignalData

pub record FraudSignalRow : Type 0 where
  pub id : String
  pub transaction_id : String
  pub rule_name : RuleName
  pub score_added : ℕ
  pub signal_data : SignalData
  pub created_at : ℕ

-- The tables that a payment reads and writes, and the number of uuids drawn for their rows.
pub record Tables : Type 0 where
  pub accounts : List AccountRow
  pub transactions : List TransactionRow
  pub ledger_entries : List LedgerEntryRow
  pub fraud_signals : List FraudSignalRow
  pub draws : ℕ

-- Number.MAX_SAFE_INTEGER
abbrev pub max_safe_integer : ℕ
max_safe_integer = 9007199254740991

-- The parser of BIGINT columns.
unfoldable pub parse_bigint : ℕ → Result ℕ
parse_bigint n = if ltb max_safe_integer n then err (fault Fault.unsafe_bigint) else ok n
