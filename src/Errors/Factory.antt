-- ===== src/Errors/Factory.antt =====
-- packages/types/errors.ts: the static factories of AppError.
use settlr.Prelude.{ℕ, true, some}
use settlr.Errors.{AppError, ErrorCode, app_error}

abbrev pub not_found : AppError
not_found = app_error ErrorCode.account_not_found 404

abbrev pub validation : AppError
validation = app_error ErrorCode.validation_error 400

abbrev pub insufficient_balance : AppError
insufficient_balance = app_error ErrorCode.insufficient_balance 422

abbrev pub fraud_blocked : ℕ → AppError
fraud_blocked score = record {
  code = ErrorCode.fraud_blocked;
  status_code = 403;
  is_operational = true;
  fraud_score = some score;
}

abbrev pub account_locked : AppError
account_locked = app_error ErrorCode.account_locked 409
