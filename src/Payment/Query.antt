-- ===== src/Payment/Query.antt =====
-- payment.service.ts: getTransaction and getTransactionDetails, with fraud.repository.ts and the
-- queries of the other two repositories. `toCamelCase` renames columns; the records are the same.
pub mod Access
use settlr.Prelude.{
  ℕ, Bool, true, false, not, ◌||◌, Option, none, some, List, String, same_text, leb, if◌then◌else◌,
  keep, map, sort_by, find,
}
use settlr.Errors.{app, Result, ok, err}
use settlr.Errors.Factory
use settlr.Action.{Action, pure, throw_if, or_throw, ◌>>=◌, ◌>>◌}
use settlr.Database.{
  AccountRow, TransactionRow, EntryType, LedgerEntryRow, FraudSignalRow, RuleName, SignalData,
  Tables,
}
use settlr.Payment.{Platform}
use settlr.Payment.Repository.{uuid_literal, find_by_id, select_account}

-- { ...transaction, fraudSignals, ledger }
pub record TransactionView : Type 0 where
  pub transaction : TransactionRow
  pub fraud_signals : List FraudSignalRow
  pub ledger : List LedgerEntryRow

pub record EntryView : Type 0 where
  pub id : String
  pub entry_type : EntryType
  pub amount : ℕ
  pub balance_before : ℕ
  pub balance_after : ℕ

pub record SignalView : Type 0 where
  pub rule_name : RuleName
  pub score_added : ℕ
  pub signal_data : SignalData

-- { transaction, ledgerEntries, fraudSignals }
pub record TransactionDetails : Type 0 where
  pub transaction : TransactionRow
  pub ledger_entries : List EntryView
  pub fraud_signals : List SignalView

abbrev pub entry_view : LedgerEntryRow → EntryView
entry_view row = record {
  id = row.id;
  entry_type = row.entry_type;
  amount = row.amount;
  balance_before = row.balance_before;
  balance_after = row.balance_after;
}

abbrev pub signal_view : FraudSignalRow → SignalView
signal_view row = record {
  rule_name = row.rule_name;
  score_added = row.score_added;
  signal_data = row.signal_data;
}

-- account?.user_id === userId
abbrev pub is_owner : String → Option AccountRow → Bool
is_owner user_id none = false
is_owner user_id (some row) = same_text row.user_id user_id

module _ (p : Platform) where
  -- ledgerRepository.findByTransactionId, by ORDER BY created_at ASC
  unfoldable pub find_entries : String → Action Tables (List LedgerEntryRow)
  find_entries i = do
    u ← uuid_literal p i
    λ t. (
      ok (
          sort_by (λ a b. leb a.created_at b.created_at)
            (keep (λ row. same_text row.transaction_id u) t.ledger_entries)),
      t,
    )

  -- fraudRepository.findSignalsByTransactionId
  unfoldable pub find_signals : String → Action Tables (List FraudSignalRow)
  find_signals i = do
    u ← uuid_literal p i
    λ t. (
      ok (
          sort_by (λ a b. leb a.created_at b.created_at)
            (keep (λ row. same_text row.transaction_id u) t.fraud_signals)),
      t,
    )

  -- The query of findByIdWithSignals, without an order.
  unfoldable pub find_signals_unordered : String → Action Tables (List FraudSignalRow)
  find_signals_unordered i = do
    u ← uuid_literal p i
    λ t. (ok (keep (λ row. same_text row.transaction_id u) t.fraud_signals), t)

  -- Neither account belongs to the user.
  unfoldable pub check_access : TransactionRow → String → Action Tables (Unit {0})
  check_access transaction user_id = do
    from_account ← select_account p transaction.from_account_id
    to_account ← select_account p transaction.to_account_id
    throw_if (not (is_owner user_id from_account || is_owner user_id to_account))
        (app Factory.not_found)

  -- getTransaction, with paymentRepository.findByIdWithSignals
  unfoldable pub get_transaction : String → String → Action Tables TransactionView
  unfolding check_access find_signals_unordered
  get_transaction transaction_id user_id = do
    row ← find_by_id p transaction_id
    transaction ← or_throw row (app Factory.not_found)
    signals ← find_signals_unordered transaction_id
    check_access transaction user_id
    ledger ← find_entries transaction_id
    pure (record { transaction = transaction; fraud_signals = signals; ledger = ledger })

  -- getTransactionDetails
  unfoldable pub get_transaction_details : String → String → Action Tables TransactionDetails
  unfolding check_access
  get_transaction_details transaction_id user_id = do
    row ← find_by_id p transaction_id
    ledger_rows ← find_entries transaction_id
    fraud_rows ← find_signals transaction_id
    transaction ← or_throw row (app Factory.not_found)
    check_access transaction user_id
    pure (record {
      transaction = transaction;
      ledger_entries = map entry_view ledger_rows;
      fraud_signals = map signal_view fraud_rows;
    })
