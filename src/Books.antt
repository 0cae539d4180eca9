-- ===== src/Books.antt =====
-- The books of the accounts: what the transactions and the ledger entries say of an account, as
-- scripts/fix-balances.js and scripts/analyze-corruption.js sum it, and a run of payment requests.
pub mod Bank
pub mod Refinement
pub mod Transfer
pub mod Reconciliation
use settlr.Prelude.{
  ℕ, ◌+◌, ◌≡◌, ◌≢◌, Bool, true, false, ◌&&◌, Option, none, some, List, [], ◌∷◌, String, same_text,
  sum_by, if◌then◌else◌,
}
use settlr.Database.{
  AccountRow, TransactionStatus, TransactionRow, EntryType, LedgerEntryRow, Tables,
}
use settlr.Database.Accounts.{find_account, HasUniqueIds}
use settlr.Payment.{PaymentParams, Platform}
use settlr.Payment.Initiate.{State, initiate_payment}

abbrev pub is_completed : TransactionStatus → Bool
is_completed TransactionStatus.completed = true
is_completed _ = false

abbrev pub is_credit : EntryType → Bool
is_credit EntryType.credit = true
is_credit EntryType.debit = false

abbrev pub is_debit : EntryType → Bool
is_debit EntryType.debit = true
is_debit EntryType.credit = false

-- What the loop over the completed transactions subtracts for an account.
abbrev pub sent_amount : String → TransactionRow → ℕ
sent_amount i tx = if is_completed tx.status && same_text tx.from_account_id i then tx.amount else 0

-- What it adds.
abbrev pub received_amount : String → TransactionRow → ℕ
received_amount i tx =
    if is_completed tx.status && same_text tx.to_account_id i then tx.amount else 0

unfoldable pub sent : String → List TransactionRow → ℕ
sent i txs = sum_by (sent_amount i) txs

unfoldable pub received : String → List TransactionRow → ℕ
received i txs = sum_by (received_amount i) txs

abbrev pub debit_amount : String → LedgerEntryRow → ℕ
debit_amount i e = if is_debit e.entry_type && same_text e.account_id i then e.amount else 0

abbrev pub credit_amount : String → LedgerEntryRow → ℕ
credit_amount i e = if is_credit e.entry_type && same_text e.account_id i then e.amount else 0

unfoldable pub debited : String → List LedgerEntryRow → ℕ
debited i es = sum_by (debit_amount i) es

unfoldable pub credited : String → List LedgerEntryRow → ℕ
credited i es = sum_by (credit_amount i) es

abbrev pub balance_or_0 : Option AccountRow → ℕ
balance_or_0 none = 0
balance_or_0 (some row) = row.balance

unfoldable pub balance_of : String → Tables → ℕ
balance_of i t = balance_or_0 (find_account i t.accounts)

-- The balance of every account is its opening balance with what it received and without what it
-- sent, by the transactions and by the ledger.
abbrev pub Reconciles : (String → ℕ) → Tables → Type 0
Reconciles opening t =
    HasUniqueIds t.accounts
    × ((i : String)
        → balance_of i t + sent i t.transactions ≡ opening i + received i t.transactions)
    × ((i : String)
        → balance_of i t + debited i t.ledger_entries ≡ opening i + credited i t.ledger_entries)

-- The two ids of a request denote different accounts.
abbrev pub IsDistinct : Platform → PaymentParams → Type 0
IsDistinct p q = p.canon q.from_account_id ≢ p.canon q.to_account_id

-- Requests that are served one after the other, whatever each answers.
unfoldable pub serve_payments : (p : Platform) → List PaymentParams → State p → State p
serve_payments p [] w = w
serve_payments p (q ∷ qs) w = serve_payments p qs (initiate_payment p q w).1
