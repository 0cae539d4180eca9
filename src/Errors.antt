-- ===== src/Errors.antt =====
-- packages/types/errors.ts: the error codes, AppError with its factories, and the results of calls
-- that may throw. A message text is left out; what the driver, Redis, Kafka or JSON.parse throws is
-- a `Fault`.
pub mod Factory
use settlr.Prelude.{ℕ, ◌≡◌, Bool, true, false, Option, none, some}

-- ErrorCodes
pub data ErrorCode : Type 0 where
  invalid_credentials token_expired unauthorized : ErrorCode
  account_not_found recipient_not_found account_frozen account_locked : ErrorCode
  insufficient_balance duplicate_transaction concurrent_modification fraud_blocked : ErrorCode
  validation_error invalid_amount rate_limit_exceeded : ErrorCode
  internal_error service_unavailable : ErrorCode

pub code-discrete : Discrete ErrorCode
code-discrete = hlevel

-- class AppError; `data` only ever carries a fraud score.
pub record AppError : Type 0 where
  pub code : ErrorCode
  pub status_code : ℕ
  pub is_operational : Bool
  pub fraud_score : Option ℕ

-- new AppError(code, message, statusCode)
abbrev pub app_error : ErrorCode → ℕ → AppError
app_error c n = record { code = c; status_code = n; is_operational = true; fraud_score = none }

-- What a call into PostgreSQL, Redis, Kafka or JSON.parse may throw.
pub data Fault : Type 0 where
  invalid_uuid row_lock_not_available unsafe_bigint unique_violation check_violation : Fault
  value_too_long value_out_of_range invalid_character : Fault
  database_error redis_error kafka_error malformed_json no_endpoint : Fault

pub data Error : Type 0 where
  app : AppError → Error
  fault : Fault → Error

pub data Result {ℓ} (A : Type ℓ) : Type ℓ where
  ok : A → Result A
  err : Error → Result A
