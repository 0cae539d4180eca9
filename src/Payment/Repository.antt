-- ===== src/Payment/Repository.antt =====
-- services/payment-service/src/repositories: payment.repository.ts and ledger.repository.ts, and
-- services/ledger.service.ts. An SQL statement is the list operation that it denotes.
use Prim.Native.Char.{code}
use Prim.Native.String.{count}
use settlr.Prelude.{
  leb, not, ◌&&◌, ℕ, zero, suc, ◌+◌, Bool, true, false, ◌||◌, List, [], ◌∷◌, ◌++◌, Option, none,
  some, String, ltb, ◌==◌, find, update_where, count_where, same_text, length, if◌then◌else◌,
}
use settlr.Errors.{fault, Fault, Result, ok, err}
use settlr.Action.{Action, ◌>>=◌, ◌>>◌, pure, throw_if, or_throw}
use settlr.Database.{
  AccountRow, TransactionRow, TransactionStatus, FraudAction, EntryType, LedgerEntryRow,
  FraudSignalRow, Tables, parse_bigint,
}
use settlr.Database.Accounts.{has_id, at_version, find_account}
use settlr.Payment.{FraudSignal, Platform}

-- The driver reads the balance of a row that it returns.
unfoldable pub read_row : Option AccountRow → Result (Option AccountRow)
unfolding parse_bigint
read_row none = ok none
read_row (some row) = elim (parse_bigint row.balance) [ ok _ ↦ ok (some row) | err e ↦ err e ]

-- The idempotency keys are UNIQUE.
abbrev pub has_key : String → TransactionRow → Bool
has_key k row = same_text row.idempotency_key k

abbrev pub is_some {ℓ} : {A : Type ℓ} → Option A → Bool
is_some none = false
is_some (some _) = true

-- The largest value of an INTEGER column.
abbrev pub max_integer : ℕ
max_integer = 2147483647

abbrev is_blank : String → Bool
is_blank String.[] = true
is_blank (String.◌∷◌ c s) = let rest = is_blank s in code c == 32 && rest

-- PostgreSQL has no text with the character 0, not in JSONB either.
unfoldable pub has_nul : String → Bool
has_nul String.[] = false
has_nul (String.◌∷◌ c s) = let rest = has_nul s in code c == 0 || rest

abbrev pub described_nul : Option String → Bool
described_nul none = false
described_nul (some d) = has_nul d

-- A CHAR column: a text is cut by spaces at its end that it has no room for, else it is too long.
unfoldable pub fits_char : ℕ → String → Bool
fits_char zero s = is_blank s
fits_char (suc n) String.[] = true
fits_char (suc n) (String.◌∷◌ c s) = fits_char n s

-- It is filled with spaces.
unfoldable pub char_value : ℕ → String → String
char_value zero s = String.[]
char_value (suc n) String.[] = String.◌∷◌ " " (char_value n String.[])
char_value (suc n) (String.◌∷◌ c s) = String.◌∷◌ c (char_value n s)

-- The argument of create.
pub record NewTransaction : Type 0 where
  pub idempotency_key : String
  pub from_account_id : String
  pub to_account_id : String
  pub amount : ℕ
  pub currency : String
  pub status : TransactionStatus
  pub fraud_score : ℕ
  pub fraud_action : FraudAction
  pub description : Option String

-- `data.description ? { description: data.description } : {}`: the empty text is dropped.
abbrev pub described : Option String → Option String
described none = none
described (some d) = if same_text d "" then none else some d

-- One element of the argument of createPair.
pub record NewEntry : Type 0 where
  pub transaction_id : String
  pub account_id : String
  pub entry_type : EntryType
  pub amount : ℕ
  pub balance_before : ℕ
  pub balance_after : ℕ

-- ILedgerParams
pub record LedgerParams : Type 0 where
  pub transaction_id : String
  pub from_account_id : String
  pub to_account_id : String
  pub amount : ℕ
  pub from_balance_before : ℕ
  pub from_balance_after : ℕ
  pub to_balance_before : ℕ
  pub to_balance_after : ℕ

module _ (p : Platform) where
  open p use {canon, row_locked, random_uuid, now}

  -- A literal that is no uuid is refused by PostgreSQL.
  abbrev pub uuid_literal : String → Action Tables String
  uuid_literal i = or_throw (canon i) (fault Fault.invalid_uuid)

  -- db('accounts').where({ id }).first()
  unfoldable pub select_account : String → Action Tables (Option AccountRow)
  unfolding read_row
  select_account i = do u ← uuid_literal i; λ t. (read_row (find_account u t.accounts), t)

  abbrev nowait : Option AccountRow → Bool
  nowait none = false
  nowait (some row) = row_locked row.id

  -- lockAccount: SELECT … FOR UPDATE NOWAIT
  unfoldable pub lock_account : String → Action Tables (Option AccountRow)
  unfolding read_row
  lock_account i = do
    u ← uuid_literal i
    λ t. throw_if (nowait (find_account u t.accounts)) (fault Fault.row_lock_not_available) t
    λ t. (read_row (find_account u t.accounts), t)

  abbrev pub set_balance : ℕ → ℕ → AccountRow → AccountRow
  set_balance new_balance version row = record row {
    balance = new_balance;
    version = suc version;
    updated_at = now;
  }

  -- updateBalance returns the number of rows that were updated. The new version is an INTEGER.
  unfoldable pub update_balance : String → ℕ → ℕ → Action Tables ℕ
  update_balance i new_balance version = do
    throw_if (leb max_integer version) (fault Fault.value_out_of_range)
    u ← uuid_literal i
    λ t. (
      ok (count_where (at_version u version) t.accounts),
      record t {
        accounts = update_where (at_version u version) (set_balance new_balance version) t.accounts;
      },
    )

  -- creditAccount: no test of the version.
  unfoldable pub credit_account : String → ℕ → ℕ → Action Tables (Unit {0})
  credit_account i new_balance version = do
    throw_if (leb max_integer version) (fault Fault.value_out_of_range)
    u ← uuid_literal i
    λ t. (
      ok tt,
      record t { accounts = update_where (has_id u) (set_balance new_balance version) t.accounts },
    )

  abbrev pub transaction_row : NewTransaction → String → String → ℕ → TransactionRow
  transaction_row d from to n = record {
    id = random_uuid n;
    idempotency_key = d.idempotency_key;
    from_account_id = from;
    to_account_id = to;
    amount = d.amount;
    currency = char_value 3 d.currency;
    status = d.status;
    failure_reason = none;
    fraud_score = some d.fraud_score;
    fraud_action = some d.fraud_action;
    metadata = described d.description;
    created_at = now;
    updated_at = now;
  }

  abbrev insert_transaction : TransactionRow → Action Tables TransactionRow
  insert_transaction row t =
      (ok row, record t { transactions = t.transactions ++ row ∷ []; draws = suc t.draws })

  -- create: INSERT INTO transactions, with its VARCHAR(255), CHAR(3), UNIQUE and CHECK constraints. The
  -- key is a header, which neither ends in spaces nor has the character 0.
  unfoldable pub create : NewTransaction → Action Tables TransactionRow
  create d = do
    from ← uuid_literal d.from_account_id
    to ← uuid_literal d.to_account_id
    throw_if (ltb 255 (count d.idempotency_key)) (fault Fault.value_too_long)
    throw_if (has_nul d.currency || described_nul d.description) (fault Fault.invalid_character)
    throw_if (not (fits_char 3 d.currency)) (fault Fault.value_too_long)
    λ t.
        throw_if (is_some (find (has_key d.idempotency_key) t.transactions))
          (fault Fault.unique_violation) t
    throw_if (d.amount == 0 || ltb 100 d.fraud_score) (fault Fault.check_violation)
    λ t. insert_transaction (transaction_row d from to t.draws) t

  abbrev entry_row : NewEntry → String → ℕ → LedgerEntryRow
  entry_row e account n = record {
    id = random_uuid n;
    transaction_id = e.transaction_id;
    account_id = account;
    entry_type = e.entry_type;
    amount = e.amount;
    balance_before = e.balance_before;
    balance_after = e.balance_after;
    created_at = now;
  }

  abbrev insert_entry : NewEntry → Action Tables LedgerEntryRow
  insert_entry e = do
    account ← uuid_literal e.account_id
    λ t.
        let row = entry_row e account t.draws in
        (ok row, record t { ledger_entries = t.ledger_entries ++ row ∷ []; draws = suc t.draws })

  -- createPair: INSERT INTO ledger_entries, row after row.
  unfoldable pub create_pair : List NewEntry → Action Tables (List LedgerEntryRow)
  create_pair [] = pure []
  create_pair (e ∷ es) = do row ← insert_entry e; rows ← create_pair es; pure (row ∷ rows)

  -- ledgerService.createEntries: the debit of the sender, then the credit of the recipient.
  unfoldable pub create_entries : LedgerParams → Action Tables (Unit {0})
  unfolding create_pair
  create_entries q = do
    create_pair (
        record {
          transaction_id = q.transaction_id;
          account_id = q.from_account_id;
          entry_type = EntryType.debit;
          amount = q.amount;
          balance_before = q.from_balance_before;
          balance_after = q.from_balance_after;
        }
        ∷ record {
          transaction_id = q.transaction_id;
          account_id = q.to_account_id;
          entry_type = EntryType.credit;
          amount = q.amount;
          balance_before = q.to_balance_before;
          balance_after = q.to_balance_after;
        }
        ∷ [])
    pure tt

  abbrev signal_row : String → FraudSignal → ℕ → FraudSignalRow
  signal_row transaction_id s n = record {
    id = random_uuid n;
    transaction_id = transaction_id;
    rule_name = s.rule_name;
    score_added = s.score_added;
    signal_data = s.signal_data;
    created_at = now;
  }

  -- The rows of one INSERT INTO fraud_signals.
  abbrev pub signal_rows : String → List FraudSignal → ℕ → List FraudSignalRow
  signal_rows transaction_id [] n = []
  signal_rows transaction_id (s ∷ ss) n =
      signal_row transaction_id s n ∷ signal_rows transaction_id ss (suc n)

  -- insertFraudSignals; with no signal the statement is skipped.
  unfoldable pub insert_fraud_signals : String → List FraudSignal → Action Tables (Unit {0})
  insert_fraud_signals transaction_id [] t = pure tt t
  insert_fraud_signals transaction_id (s ∷ ss) t = (
    ok tt,
    record t {
      fraud_signals = t.fraud_signals ++ signal_rows transaction_id (s ∷ ss) t.draws;
      draws = t.draws + length (s ∷ ss);
    },
  )

  -- findById
  unfoldable pub find_by_id : String → Action Tables (Option TransactionRow)
  find_by_id i = do
    u ← uuid_literal i
    λ t. (ok (find (λ row. same_text row.id u) t.transactions), t)

  -- findByIdempotencyKey
  unfoldable pub find_by_idempotency_key : String → Action Tables (Option TransactionRow)
  find_by_idempotency_key k t = (ok (find (has_key k) t.transactions), t)

  -- updateStatus
  unfoldable pub update_status :
      String → TransactionStatus → Option String → Action Tables (Unit {0})
  update_status i status reason = do
    u ← uuid_literal i
    λ t. (
      ok tt,
      record t {
        transactions =
            update_where (λ row. same_text row.id u)
              (λ row. record row { status = status; failure_reason = reason; updated_at = now })
              t.transactions;
      },
    )
