-- ===== src/Tests/History.antt =====
-- The history of an account with two transactions.
use settlr.Prelude.{ℕ, ◌≡◌, refl, true, List, [], ◌∷◌, none, some}
use settlr.Errors.{ok}
use settlr.Redis.Memory.{memory, empty}
use settlr.Database.{TransactionRow, Tables, parse_bigint}
use settlr.Payment.Repository.{read_row}
use settlr.Account.{
  Page, Pages, AccountState, account_transactions, page_of, query_page, find_by_id_and_user_id,
  get_account, read_page, get_history, get_transactions,
}
use settlr.Tests.Payment.{tables, written}

abbrev pages : Pages TransactionRow
pages = record {
  redis = memory;
  canon = λ id. some id;
  stringify = λ page. "page";
  parse = λ text. none;
}

abbrev ledger : Tables
ledger = record tables { transactions = written "b" 30 ∷ written "b" 40 ∷ [] }

abbrev world : AccountState pages
world = record { store = empty; tables = ledger; outbox = record { sent = []; drawn = 0 } }

abbrev answer : Page TransactionRow
answer = record {
  items = written "b" 30 ∷ [];
  total = 2;
  page = 1;
  limit = 1;
  total_pages = 2;
  has_more = true;
}

page_run : (get_transactions pages "a" "u" 1 1 world).0 ≡ ok answer
unfolding get_transactions get_history read_page query_page get_account find_by_id_and_user_id
    read_row parse_bigint page_of account_transactions
page_run = refl

abbrev rows : List ℕ
rows = 5 ∷ 6 ∷ 7 ∷ []
