-- ===== src/Payment/Query/Access.antt =====
-- Who may read a transaction.
use settlr.Prelude.{◌≡◌, Bool, true, false, ◌||◌, Option, some, String, arith}
use settlr.Errors.{Result, ok, err}
use settlr.Database.{AccountRow, TransactionRow, Tables, parse_bigint}
use settlr.Payment.{Platform}
use settlr.Payment.Repository.{find_by_id, select_account, read_row}
use settlr.Payment.Query.{
  TransactionView, TransactionDetails, is_owner, find_entries, find_signals, find_signals_unordered,
  check_access, get_transaction, get_transaction_details,
}

abbrev pub seen : Result TransactionView → Result TransactionRow
seen (ok view) = ok view.transaction
seen (err e) = err e

abbrev pub seen_details : Result TransactionDetails → Result TransactionRow
seen_details (ok details) = ok details.transaction
seen_details (err e) = err e

-- The account that was read is there and belongs to the user.
abbrev pub owns : String → Result (Option AccountRow) → Bool
owns user_id (ok o) = is_owner user_id o
owns user_id (err e) = false

module _ (p : Platform) (transaction_id user_id : String) (t : Tables) where
  -- The two queries of a transaction agree: they return the same transaction or throw the same
  -- error, and neither changes a table.
  pub get_transaction_details-agrees :
      (seen_details (get_transaction_details p transaction_id user_id t).0
        ≡ seen (get_transaction p transaction_id user_id t).0)
      × ((get_transaction_details p transaction_id user_id t).1 ≡ t)
      × ((get_transaction p transaction_id user_id t).1 ≡ t)
  unfolding get_transaction get_transaction_details find_by_id find_entries find_signals
      find_signals_unordered check_access select_account read_row parse_bigint
  get_transaction_details-agrees = ground arith

  -- A transaction that is returned is one of the table, and the user owns its sender or recipient.
  pub get_transaction-owner :
      (view : TransactionView)
      → (get_transaction p transaction_id user_id t).0 ≡ ok view
      → let sender = (select_account p view.transaction.from_account_id t).0 in
        let recipient = (select_account p view.transaction.to_account_id t).0 in
        (ok (some view.transaction) ≡ (find_by_id p transaction_id t).0)
        × ((owns user_id sender || owns user_id recipient) ≡ true)
  unfolding get_transaction find_by_id find_entries find_signals_unordered check_access
      select_account read_row parse_bigint
  get_transaction-owner view h = ground arith
