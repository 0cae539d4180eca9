-- ===== src/Account.antt =====
-- services/account-service: the history pages of services/account.service.ts, getAccount, and the
-- queries of repositories/account.repository.ts that they use. A page number is at least 1. The read
-- cache of page 1 is written without waiting: its failure is ignored.
pub mod Paging
pub mod Chart
pub mod Directory
pub mod Freshness
use settlr.Prelude.{
  ℕ, ◌+◌, ◌-◌, ◌*◌, ◌/◌, Bool, true, false, ◌&&◌, Option, none, some, List, [], ◌∷◌, ◌++◌, String,
  same_text, ltb, leb, ◌==◌, min, max, if◌then◌else◌, find, keep, take, drop, length, sort_by,
}
use settlr.Errors.{app, fault, Fault, Result, ok, err}
use settlr.Errors.Factory
use settlr.Action.{Action, pure, or_throw, settle, ◌>>=◌, ◌>>◌}
use settlr.Redis.{Redis, Key, command}
use settlr.Database.{AccountRow, TransactionRow, LedgerEntryRow, Tables}
use settlr.Payment.{World, on_store, on_tables}
use settlr.Payment.Repository.{read_row}

-- IPaginatedResponse
pub record Page (A : Type 0) : Type 0 where
  pub items : List A
  pub total : ℕ
  pub page : ℕ
  pub limit : ℕ
  pub total_pages : ℕ
  pub has_more : Bool

-- Math.min(Math.max(limit, 1), 100)
abbrev pub safe_limit : ℕ → ℕ
safe_limit limit = min (max limit 1) 100

-- COUNT(*) OVER() of the first row, or 0 if no row was returned.
abbrev pub window_count : {A : Type 0} → List A → ℕ → ℕ
window_count [] count = 0
window_count (x ∷ xs) count = count

-- Math.ceil(total / limit), for a positive limit.
abbrev pub page_count : ℕ → ℕ → ℕ
page_count total limit = (total + (limit - 1)) / limit

abbrev pub newest_transaction : TransactionRow → TransactionRow → Bool
newest_transaction a b = leb b.created_at a.created_at

abbrev pub newest_entry : LedgerEntryRow → LedgerEntryRow → Bool
newest_entry a b = leb b.created_at a.created_at

-- The rows of the UNION ALL, newest first: what was sent, and what was received.
unfoldable pub account_transactions : String → Tables → List TransactionRow
account_transactions u t = sort_by newest_transaction (
    keep (λ row. same_text row.from_account_id u) t.transactions
    ++ keep (λ row. same_text row.to_account_id u) t.transactions)

unfoldable pub account_entries : String → Tables → List LedgerEntryRow
account_entries u t =
    sort_by newest_entry (keep (λ row. same_text row.account_id u) t.ledger_entries)

-- LIMIT :limit OFFSET :offset
unfoldable pub page_of : {A : Type 0} → ℕ → ℕ → List A → List A
page_of page limit rows = take limit (drop ((page - 1) * limit) rows)

-- Redis, PostgreSQL's reading of a uuid, and JSON for the pages of one kind.
pub record Pages (A : Type 0) : Type 1 where
  pub redis : Redis
  pub canon : String → Option String
  pub stringify : Page A → String
  pub parse : String → Option (Page A)

module _ {A : Type 0} (p : Pages A) where
  abbrev pub AccountState : Type 0
  AccountState = World p.redis.Store

  abbrev pub read_uuid : String → Action Tables String
  read_uuid i t = or_throw (p.canon i) (fault Fault.invalid_uuid) t

  -- accountRepository.findByIdAndUserId
  unfoldable pub find_by_id_and_user_id : String → String → Action Tables (Option AccountRow)
  find_by_id_and_user_id i user_id = do
    u ← read_uuid i
    λ t.
        (read_row (find (λ row. same_text row.id u && same_text row.user_id user_id) t.accounts), t)

  -- accountService.getAccount
  unfoldable pub get_account : String → String → Action AccountState AccountRow
  unfolding find_by_id_and_user_id
  get_account i user_id = do
    found ← on_tables (find_by_id_and_user_id i user_id)
    or_throw found (app Factory.not_found)

  -- accountRepository.getTransactions and getLedgerEntries, by the rows that they select.
  unfoldable pub query_page :
      (String → Tables → List A) → String → ℕ → ℕ → Action Tables (List A × ℕ)
  unfolding page_of
  query_page select i page limit = do
    u ← read_uuid i
    λ t.
        let items = page_of page limit (select u t) in
        (ok (items, window_count items (length (select u t))), t)

  abbrev pub as_page : List A × ℕ → ℕ → ℕ → Page A
  as_page result page limit =
      let total_pages = page_count result.1 limit in
      record {
        items = result.0;
        total = result.1;
        page = page;
        limit = limit;
        total_pages = total_pages;
        has_more = ltb page total_pages;
      }

  abbrev remember : Key → ℕ → Page A → Action AccountState (Unit {0})
  remember key page answer =
      if page == 1
      then settle (on_store (command (p.redis.setex key 5 (p.stringify answer))))
      else pure tt

  unfoldable pub read_page :
      (String → Tables → List A) → Key → String → String → ℕ → ℕ → Action AccountState (Page A)
  unfolding query_page find_by_id_and_user_id
  read_page select key i user_id page limit = do
    account ← on_tables (find_by_id_and_user_id i user_id)
    result ← on_tables (query_page select i page limit)
    or_throw account (app Factory.not_found)
    let answer = as_page result page limit
    remember key page answer
    pure answer

  -- `if (cached)`: an empty text counts as absent.
  abbrev pub cached_text : Option String → Option String
  cached_text none = none
  cached_text (some text) = if same_text text "" then none else some text

  abbrev serve_cached :
      (String → Tables → List A)
      → Key
      → String
      → String
      → ℕ
      → ℕ
      → Option String
      → Action AccountState (Page A)
  serve_cached select key i user_id page limit none = read_page select key i user_id page limit
  serve_cached select key i user_id page limit (some text) = do
    get_account i user_id
    or_throw (p.parse text) (fault Fault.malformed_json)

  -- getTransactions and getLedgerEntries of the service; the limit is the safe one.
  unfoldable pub get_history :
      (String → Tables → List A) → Key → String → String → ℕ → ℕ → Action AccountState (Page A)
  get_history select key i user_id page limit =
      if page == 1
      then (do
        cached ← on_store (command (p.redis.get key))
        serve_cached select key i user_id page limit (cached_text cached))
      else read_page select key i user_id page limit

-- accountService.getTransactions
unfoldable pub get_transactions :
    (p : Pages TransactionRow)
    → String
    → String
    → ℕ
    → ℕ
    → Action (AccountState p) (Page TransactionRow)
get_transactions p i user_id page limit =
    get_history p account_transactions (Key.cache_txns i page (safe_limit limit)) i user_id page
      (safe_limit limit)

-- accountService.getLedgerEntries
unfoldable pub get_ledger_entries :
    (p : Pages LedgerEntryRow)
    → String
    → String
    → ℕ
    → ℕ
    → Action (AccountState p) (Page LedgerEntryRow)
get_ledger_entries p i user_id page limit =
    get_history p account_entries (Key.cache_ledger i page (safe_limit limit)) i user_id page
      (safe_limit limit)
