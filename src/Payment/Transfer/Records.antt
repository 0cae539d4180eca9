-- ===== src/Payment/Transfer/Records.antt =====
-- What a transfer writes besides the balances, and when it succeeds.
use Prim.Native.String.{count}
use settlr.Prelude.{
  true, suc, ◌+◌, ◌-◌, ◌≤◌, ◌<◌, ◌≡◌, ◌≢◌, refl, false, [], ◌∷◌, ◌++◌, none, some, String, arith,
  find,
}
use settlr.Errors.{ok}
use settlr.Database.{
  AccountStatus, AccountRow, TransactionRow, TransactionStatus, EntryType, LedgerEntryRow, Tables,
  parse_bigint, max_safe_integer,
}
use settlr.Database.Accounts.{find_account, HasUniqueIds, update-at_version}
use settlr.Payment.{PaymentParams, FraudResult, Platform}
use settlr.Payment.Repository.{
  read_row, transaction_row, fits_char, has_nul, described_nul, has_key, set_balance, lock_account,
  update_balance, credit_account, create, create_entries, create_pair, insert_fraud_signals,
}
use settlr.Payment.Transfer.{transfer, record_of}

module _ (p : Platform) (q : PaymentParams) (fraud : FraudResult) (f g : String)
    (reads_f : p.canon q.from_account_id ≡ some f) (reads_g : p.canon q.to_account_id ≡ some g)
    (t : Tables) (sender recipient : AccountRow)
    (has_sender : find_account f t.accounts ≡ some sender)
    (has_recipient : find_account g t.accounts ≡ some recipient) where
  abbrev debit_entry : LedgerEntryRow
  debit_entry = record {
    id = p.random_uuid (suc t.draws);
    transaction_id = p.random_uuid t.draws;
    account_id = f;
    entry_type = EntryType.debit;
    amount = q.amount;
    balance_before = sender.balance;
    balance_after = sender.balance - q.amount;
    created_at = p.now;
  }

  abbrev credit_entry : LedgerEntryRow
  credit_entry = record {
    id = p.random_uuid (suc (suc t.draws));
    transaction_id = p.random_uuid t.draws;
    account_id = g;
    entry_type = EntryType.credit;
    amount = q.amount;
    balance_before = recipient.balance;
    balance_after = recipient.balance + q.amount;
    created_at = p.now;
  }

  module _ {row : TransactionRow} (returned : (transfer p q fraud t).0 ≡ ok row) where
    written_transaction :
        (row ≡ transaction_row p (record_of q fraud) f g t.draws) × (q.amount ≤ sender.balance)
    unfolding transfer lock_account read_row parse_bigint update_balance credit_account create
        create_entries create_pair insert_fraud_signals
    written_transaction = ground arith

    written_tables :
        ((transfer p q fraud t).1.ledger_entries
          ≡ (t.ledger_entries ++ debit_entry ∷ []) ++ credit_entry ∷ [])
        × ((transfer p q fraud t).1.transactions
            ≡ t.transactions ++ transaction_row p (record_of q fraud) f g t.draws ∷ [])
    unfolding transfer lock_account read_row parse_bigint update_balance credit_account create
        create_entries create_pair insert_fraud_signals
    written_tables = ground arith

    -- A transfer that returns appends one transaction, which is completed and carries the request's
    -- key, accounts and amount, and two ledger entries of that transaction: a debit of the sender
    -- and a credit of the recipient, each of the amount, whose balances before are those of the two
    -- rows and whose balances after differ from them by the amount.
    pub transfer-records :
        let t' = (transfer p q fraud t).1 in
        (debit credit : LedgerEntryRow) × (t'.ledger_entries
          ≡ (t.ledger_entries ++ debit ∷ []) ++ credit ∷ [])
        × (t'.transactions ≡ t.transactions ++ row ∷ [])
        × ((row.status ≡ TransactionStatus.completed)
            × (row.idempotency_key ≡ q.idempotency_key)
            × (row.from_account_id ≡ f)
            × (row.to_account_id ≡ g)
            × (row.amount ≡ q.amount))
        × ((debit.entry_type ≡ EntryType.debit)
            × (debit.account_id ≡ f)
            × (debit.transaction_id ≡ row.id)
            × (debit.amount ≡ q.amount)
            × (debit.balance_before ≡ sender.balance)
            × (debit.balance_after + q.amount ≡ debit.balance_before))
        × ((credit.entry_type ≡ EntryType.credit)
            × (credit.account_id ≡ g)
            × (credit.transaction_id ≡ row.id)
            × (credit.amount ≡ q.amount)
            × (credit.balance_before ≡ recipient.balance)
            × (credit.balance_after ≡ credit.balance_before + q.amount))
    transfer-records =
        let enough = written_transaction.1 in
        rw written_transaction.0 (
          debit_entry,
          credit_entry,
          written_tables.0,
          written_tables.1,
          (refl, refl, refl, refl, refl),
          (refl, refl, refl, refl, refl, omega arith),
          (refl, refl, refl, refl, refl, refl),
        )

  -- A transfer between two active, unlocked rows with safe balances and versions that are not yet the
  -- largest INTEGER, for an amount that is not zero and that the sender has, in a currency that fits
  -- CHAR(3), neither it nor the description with the character 0, with a fresh idempotency key of up to 255 characters and a fraud score up to 100, returns
  -- if every statement is answered, as it is in this model of a transfer.
  pub transfer-returns :
      HasUniqueIds t.accounts
      → (p.row_locked sender.id ≡ false)
      → (p.row_locked recipient.id ≡ false)
      → recipient.balance ≤ max_safe_integer
      → sender.balance ≤ max_safe_integer
      → sender.status ≡ AccountStatus.active
      → recipient.status ≡ AccountStatus.active
      → 0 < q.amount
      → q.amount ≤ sender.balance
      → find (has_key q.idempotency_key) t.transactions ≡ none
      → fraud.score ≤ 100
      → count q.idempotency_key ≤ 255
      → fits_char 3 q.currency ≡ true
      → has_nul q.currency ≡ false
      → described_nul q.description ≡ false
      → sender.version < 2147483647
      → recipient.version < 2147483647
      → (row : TransactionRow) × ((transfer p q fraud t).0 ≡ ok row)
  unfolding transfer lock_account read_row parse_bigint update_balance credit_account create
      create_entries create_pair insert_fraud_signals
  transfer-returns u ls lr br bs act actr pos enough fresh low short fits clean clean_text vs vr =
      let one =
        (update-at_version f (set_balance p (sender.balance - q.amount) sender.version)
          (λ row. refl) t.accounts sender sender.version u has_sender refl).1 in
      (transaction_row p (record_of q fraud) f g t.draws, ground arith)

-- Whatever the tables hold, a request whose idempotency key is already in the transactions table
-- never returns.
pub transfer-unique_key :
    (p : Platform) (q : PaymentParams) (fraud : FraudResult) (t : Tables) (old row : TransactionRow)
    → find (has_key q.idempotency_key) t.transactions ≡ some old
    → (transfer p q fraud t).0 ≢ ok row
unfolding transfer lock_account read_row parse_bigint update_balance credit_account create
    create_entries create_pair insert_fraud_signals
transfer-unique_key p q fraud t old row used h = ground arith
