-- ===== src/Tests/Payment.antt =====
-- A platform with two active accounts, a payment between them, and the theorems on payments at it.
use Prim.Native.String.{count}
use settlr.Prelude.{
  ℕ, ◌+◌, ◌≤◌, ◌≡◌, ◌≢◌, refl, true, false, [], ◌∷◌, none, some, String, same_text, eq_iff,
  if◌then◌else◌, arith,
}
use settlr.Errors.{ok}
use settlr.Redis.Memory.{memory}
use settlr.Database.{
  EntryType, LedgerEntryRow, TransactionStatus, AccountStatus, AccountRow, TransactionRow,
  FraudAction, Tables, parse_bigint,
}
use settlr.Database.Accounts.{find_account, HasUniqueIds, total_balance}
use settlr.Payment.{PaymentParams, FraudResult, Platform}
use settlr.Payment.Repository.{
  fits_char, has_nul, transaction_row, lock_account, read_row, update_balance, credit_account,
  create, create_entries, create_pair, insert_fraud_signals,
}
use settlr.Payment.Transfer.{record_of, transfer}
use settlr.Payment.Transfer.Posting.{transfer-conserves, transfer-mints}
use settlr.Payment.Transfer.Records.{transfer-records, transfer-returns, transfer-unique_key}

abbrev pub platform : Platform
platform = record {
  redis = memory;
  canon = λ id. some (if same_text id "A" then "a" else id);
  row_locked = λ id. false;
  random_uuid = λ n. "uuid";
  now = 7;
  check_fraud = λ request. none;
  takes = λ event. true;
  stringify = λ t. t.id;
  parse = λ text. none;
  idempotency_ttl_seconds = 86400;
}

abbrev account : String → ℕ → AccountStatus → AccountRow
account id balance status = record {
  id = id;
  user_id = "u";
  balance = balance;
  currency = "INR";
  status = status;
  version = 0;
  created_at = 1;
  updated_at = 1;
}

abbrev pub anita : AccountRow
anita = account "a" 500 AccountStatus.active

abbrev pub bala : AccountRow
bala = account "b" 100 AccountStatus.active

abbrev pub tables : Tables
tables = record {
  accounts = anita ∷ bala ∷ [];
  transactions = [];
  ledger_entries = [];
  fraud_signals = [];
  draws = 0;
}

abbrev pub params : String → ℕ → PaymentParams
params to amount = record {
  idempotency_key = "k";
  from_account_id = "a";
  to_account_id = to;
  amount = amount;
  currency = "INR";
  description = none;
  user_id = "u";
  trace_id = "t";
}

abbrev approved : FraudResult
approved = record { score = 0; action = FraudAction.approve; signals = [] }

abbrev pub written : String → ℕ → TransactionRow
written to amount = transaction_row platform (record_of (params to amount) approved) "a" to 0

abbrev anita_id : String
anita_id = "a"

abbrev bala_id : String
bala_id = "b"

pub distinct_ids : anita_id ≢ bala_id
distinct_ids e = cc ((eq_iff anita_id bala_id).1 e)

pub unique_ids : HasUniqueIds tables.accounts
unique_ids = (refl, (refl, tt))

transfer_run : (transfer platform (params "b" 30) approved tables).0 ≡ ok (written "b" 30)
unfolding transfer lock_account read_row parse_bigint update_balance credit_account create
    create_entries create_pair insert_fraud_signals fits_char has_nul
transfer_run = refl

transfer-conserves_example :
    let rows = (transfer platform (params "b" 30) approved tables).1.accounts in
    (30 ≤ anita.balance)
    × (find_account "a" rows ≡ some (record anita { balance = 470; version = 1; updated_at = 7 }))
    × (find_account "b" rows ≡ some (record bala { balance = 130; version = 1; updated_at = 7 }))
    × ((j : String) → j ≢ "a" → j ≢ "b" → find_account j rows ≡ find_account j tables.accounts)
    × (total_balance rows ≡ 600)
    × HasUniqueIds rows
transfer-conserves_example =
    transfer-conserves platform (params "b" 30) approved "a" "b" refl refl tables anita bala
      unique_ids refl refl distinct_ids transfer_run

-- Bala's id in two spellings.
abbrev twice : PaymentParams
twice = record (params "a" 30) { to_account_id = "A" }

twice_run : (transfer platform twice approved tables).0 ≡ ok (written "a" 30)
unfolding transfer lock_account read_row parse_bigint update_balance credit_account create
    create_entries create_pair insert_fraud_signals fits_char has_nul
twice_run = refl

transfer-mints_example :
    let rows = (transfer platform twice approved tables).1.accounts in
    (total_balance rows ≡ 630)
    × (find_account "a" rows ≡ some (record anita { balance = 530; version = 1; updated_at = 7 }))
transfer-mints_example =
    transfer-mints platform twice approved "a" "a" refl refl tables anita anita unique_ids refl refl
      refl twice_run

abbrev key : String
key = "k"

short_key : count key ≤ 255
short_key = omega arith

inr_fits : fits_char 3 "INR" ≡ true
unfolding fits_char
inr_fits = refl

inr_clean : has_nul "INR" ≡ false
unfolding has_nul
inr_clean = refl

transfer-returns_example :
    (row : TransactionRow) × ((transfer platform (params "b" 500) approved tables).0 ≡ ok row)
transfer-returns_example =
    transfer-returns platform (params "b" 500) approved "a" "b" refl refl tables anita bala refl
      refl unique_ids refl refl (omega arith) (omega arith) refl refl (omega arith) (omega arith)
      refl (omega arith) short_key inr_fits inr_clean refl (omega arith) (omega arith)

transfer-unique_key_example :
    (transfer platform
      (params "b" 30)
      approved
      (record tables { transactions = written "b" 5 ∷ [] })).0
    ≢ ok (written "b" 30)
transfer-unique_key_example =
    transfer-unique_key platform (params "b" 30) approved
      (record tables { transactions = written "b" 5 ∷ [] }) (written "b" 5) (written "b" 30) refl

transfer-records_example :
    let t' = (transfer platform (params "b" 30) approved tables).1 in
    let row = written "b" 30 in
    (debit credit : LedgerEntryRow) × (t'.ledger_entries ≡ debit ∷ credit ∷ [])
    × (t'.transactions ≡ row ∷ [])
    × ((row.status ≡ TransactionStatus.completed)
        × (row.idempotency_key ≡ "k")
        × (row.from_account_id ≡ "a")
        × (row.to_account_id ≡ "b")
        × (row.amount ≡ 30))
    × ((debit.entry_type ≡ EntryType.debit)
        × (debit.account_id ≡ "a")
        × (debit.transaction_id ≡ row.id)
        × (debit.amount ≡ 30)
        × (debit.balance_before ≡ 500)
        × (debit.balance_after + 30 ≡ debit.balance_before))
    × ((credit.entry_type ≡ EntryType.credit)
        × (credit.account_id ≡ "b")
        × (credit.transaction_id ≡ row.id)
        × (credit.amount ≡ 30)
        × (credit.balance_before ≡ 100)
        × (credit.balance_after ≡ credit.balance_before + 30))
transfer-records_example =
    transfer-records platform (params "b" 30) approved "a" "b" refl refl tables anita bala refl refl
      transfer_run
