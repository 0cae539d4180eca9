-- ===== src/Payment/Transfer.antt =====
-- services/payment-service/src/services/payment.service.ts, lines 139 to 252: the transaction
-- that moves the money, and the loop that tries it again.
pub mod Posting
pub mod Records
use settlr.Prelude.{
  ℕ, zero, suc, ◌+◌, ◌-◌, Bool, true, false, ◌&&◌, not, Option, none, some, String, ltb, ◌==◌,
  if◌then◌else◌,
}
use settlr.Errors.{
  ErrorCode, code-discrete, AppError, app_error, Error, app, fault, Result, ok, err,
}
use settlr.Errors.Factory
use settlr.Action.{Action, ◌>>=◌, ◌>>◌, pure, throw, throw_if, or_throw}
use settlr.Database.{AccountStatus, AccountRow, TransactionRow, TransactionStatus, Tables}
use settlr.Payment.{PaymentParams, FraudResult, Platform}
use settlr.Payment.Repository.{
  NewTransaction, lock_account, update_balance, credit_account, create, create_entries,
  insert_fraud_signals,
}

abbrev pub is_active : AccountStatus → Bool
is_active AccountStatus.active = true
is_active _ = false

abbrev pub frozen : Error
frozen = app (app_error ErrorCode.account_frozen 403)

abbrev pub recipient_not_found : Error
recipient_not_found = app (app_error ErrorCode.recipient_not_found 404)

abbrev pub conflict : Error
conflict = app (app_error ErrorCode.concurrent_modification 409)

-- The argument of paymentRepository.create.
abbrev pub record_of : PaymentParams → FraudResult → NewTransaction
record_of q fraud = record {
  idempotency_key = q.idempotency_key;
  from_account_id = q.from_account_id;
  to_account_id = q.to_account_id;
  amount = q.amount;
  currency = q.currency;
  status = TransactionStatus.completed;
  fraud_score = fraud.score;
  fraud_action = fraud.action;
  description = q.description;
}

module _ (p : Platform) where
  -- Steps 6 to 14: the callback of `db.transaction`.
  unfoldable pub transfer : PaymentParams → FraudResult → Action Tables TransactionRow
  transfer q fraud = do
    from_account ← or_throw (← lock_account p q.from_account_id) (app Factory.not_found)
    throw_if (not (is_active from_account.status)) frozen
    to_account ← or_throw (← lock_account p q.to_account_id) recipient_not_found
    throw_if (not (is_active to_account.status)) frozen
    throw_if (ltb from_account.balance q.amount) (app Factory.insufficient_balance)
    rows_updated ←
        update_balance p q.from_account_id (from_account.balance - q.amount) from_account.version
    throw_if (rows_updated == 0) conflict
    credit_account p q.to_account_id (to_account.balance + q.amount) to_account.version
    new_transaction ← create p (record_of q fraud)
    create_entries p (record {
      transaction_id = new_transaction.id;
      from_account_id = q.from_account_id;
      to_account_id = q.to_account_id;
      amount = q.amount;
      from_balance_before = from_account.balance;
      from_balance_after = from_account.balance - q.amount;
      to_balance_before = to_account.balance;
      to_balance_after = to_account.balance + q.amount;
    })
    insert_fraud_signals p new_transaction.id fraud.signals
    pure new_transaction
