-- ===== src/Payment/Listing.antt =====
-- services/payment-service/src/handlers/payment.handler.ts: listTransactionsHandler. The process runs
-- in UTC. `ILIKE` with the pattern `%search%` and parseInt are parameters; the query reads the tables
-- of one moment.
pub mod Pages
pub mod Order
use settlr.Prelude.{
  ℕ, suc, ◌+◌, ◌-◌, ◌*◌, ◌/◌, ℤ, Bool, true, false, ◌&&◌, ◌||◌, not, Option, none, some, List, [],
  ◌∷◌, map, String, same_text, has, leb, ◌==◌, min, if◌then◌else◌, find, keep, length, sort_by,
}
use settlr.Errors.{Fault, fault, Result, ok, err}
use settlr.Database.{AccountRow, TransactionStatus, TransactionRow, Tables}
use settlr.Auth.{UserRow}
use settlr.Account.{page_of, page_count, newest_transaction}
use settlr.Account.Chart.{day_length}

-- The query string, of which absent parameters are `none`.
pub record ListQuery : Type 0 where
  pub limit : Option String
  pub page : Option String
  pub status : Option String
  pub type_of : Option String
  pub search : Option String
  pub period : Option String

-- `arranged` is the order in which PostgreSQL finds the rows for a page before it sorts them: rows with
-- one time of creation may come in another order on another page.
pub record Finder : Type 0 where
  pub now : ℕ
  pub parse_int : String → Option ℤ
  pub ilike : String → String → Bool
  pub arranged : ℕ → List TransactionRow → List TransactionRow

pub record ListedTransaction : Type 0 where
  pub row : TransactionRow
  pub from_user_name : String
  pub to_user_name : String
  pub description : Option String

pub record Listing : Type 0 where
  pub transactions : List ListedTransaction
  pub total : ℕ
  pub limit : ℤ
  pub page : ℕ
  pub total_pages : ℕ

abbrev pub status_text : TransactionStatus → String
status_text TransactionStatus.pending = "pending"
status_text TransactionStatus.processing = "processing"
status_text TransactionStatus.completed = "completed"
status_text TransactionStatus.failed = "failed"
status_text TransactionStatus.reversed = "reversed"

-- `parameter && parameter !== 'all'`
abbrev pub chosen : Option String → Option String
chosen none = none
chosen (some value) = if same_text value "" || same_text value "all" then none else some value

abbrev pub filled : Option String → Option String
filled none = none
filled (some value) = if same_text value "" then none else some value

abbrev pub number_of : Finder → Option String → Option ℤ
number_of d none = none
number_of d (some value) = d.parse_int value

-- Math.min(parseInt(limit) || 20, 100)
abbrev pub limited_to : Option ℤ → ℤ
limited_to none = ℤ.pos 20
limited_to (some (ℤ.pos n)) = if n == 0 then ℤ.pos 20 else ℤ.pos (min n 100)
limited_to (some (ℤ.negsuc n)) = ℤ.negsuc n

-- Math.max(parseInt(page) || 1, 1)
abbrev pub page_from : Option ℤ → ℕ
page_from none = 1
page_from (some (ℤ.pos n)) = if n == 0 then 1 else n
page_from (some (ℤ.negsuc n)) = 1

-- The account and the user of the two joins.
abbrev pub user_of : List UserRow → Option AccountRow → Option UserRow
user_of users none = none
user_of users (some account) = find (λ u. same_text u.id account.user_id) users

abbrev pub owner : Tables → List UserRow → String → Option UserRow
owner t users i = user_of users (find (λ a. same_text a.id i) t.accounts)

-- COALESCE(name, email, 'Unknown')
abbrev pub display_name : Option UserRow → String
display_name none = "Unknown"
display_name (some u) = or_email u.name u.email
  where
    or_email : Option String → String → String
    or_email none email = email
    or_email (some name) email = name

abbrev pub names_match : Finder → String → Option UserRow → Bool
names_match d search none = false
names_match d search (some u) = text_matches d search u.name || d.ilike search u.email
  where
    text_matches : Finder → String → Option String → Bool
    text_matches d search none = false
    text_matches d search (some value) = d.ilike search value

-- The conditions that the query string adds; an absent one holds.
abbrev pub status_matches : Option String → TransactionRow → Bool
status_matches none row = true
status_matches (some value) row = same_text (status_text row.status) value

-- new Date(...) for a period
abbrev pub since : Finder → String → ℕ
since d period =
    if same_text period "today"
    then d.now / day_length * day_length
    else if same_text period "week"
    then d.now - 7 * day_length
    else if same_text period "month"
    then d.now - 30 * day_length
    else 0

abbrev pub period_matches : Finder → Option String → TransactionRow → Bool
period_matches d none row = true
period_matches d (some period) row = leb (since d period) row.created_at

abbrev pub is_own : List String → TransactionRow → Bool
is_own ids row = has row.from_account_id ids || has row.to_account_id ids

abbrev pub type_matches : List String → Option String → TransactionRow → Bool
type_matches ids none row = true
type_matches ids (some value) row =
    if same_text value "sent"
    then has row.from_account_id ids
    else if same_text value "received"
    then has row.to_account_id ids
    else true

abbrev pub description_matches : Finder → String → Option String → Bool
description_matches d search none = false
description_matches d search (some value) = d.ilike search value

abbrev pub search_matches : Finder → Tables → List UserRow → Option String → TransactionRow → Bool
search_matches d t users none row = true
search_matches d t users (some search) row =
    description_matches d search row.metadata
    || names_match d search (owner t users row.from_account_id)
    || names_match d search (owner t users row.to_account_id)

-- The WHERE clauses.
unfoldable pub is_listed :
    Finder → Tables → List UserRow → List String → ListQuery → TransactionRow → Bool
is_listed d t users ids q row =
    is_own ids row
    && type_matches ids q.type_of row
    && status_matches (chosen q.status) row
    && period_matches d (chosen q.period) row
    && search_matches d t users (filled q.search) row

abbrev pub listed : Tables → List UserRow → TransactionRow → ListedTransaction
listed t users row = record {
  row = row;
  from_user_name = display_name (owner t users row.from_account_id);
  to_user_name = display_name (owner t users row.to_account_id);
  description = filled row.metadata;
}

-- The rows that the query finds, newest first.
unfoldable pub found_rows :
    Finder → Tables → List UserRow → List String → ListQuery → ℕ → List TransactionRow
unfolding is_listed
found_rows d t users ids q page =
    sort_by newest_transaction (d.arranged page (keep (is_listed d t users ids q) t.transactions))

-- The matching rows, newest first, and in the order of the table where two were created at one time.
unfoldable pub matching :
    Finder → Tables → List UserRow → List String → ListQuery → List TransactionRow
unfolding is_listed
matching d t users ids q =
    sort_by newest_transaction (keep (is_listed d t users ids q) t.transactions)

-- A page of them, for a positive limit.
unfoldable pub list_page :
    Finder → Tables → List UserRow → List String → ListQuery → ℕ → ℕ → Listing
unfolding found_rows page_of
list_page d t users ids q page limit =
    let rows = found_rows d t users ids q page in
    record {
      transactions = map (listed t users) (page_of page limit rows);
      total = length (keep (is_listed d t users ids q) t.transactions);
      limit = ℤ.pos limit;
      page = page;
      total_pages = page_count (length (keep (is_listed d t users ids q) t.transactions)) limit;
    }

abbrev pub own_ids : Tables → String → List String
own_ids t user_id = map (λ a. a.id) (keep (λ a. same_text a.user_id user_id) t.accounts)

abbrev pub empty_page : ℤ → ℕ → Listing
empty_page limit page = record {
  transactions = [];
  total = 0;
  limit = limit;
  page = page;
  total_pages = 0;
}

-- PostgreSQL refuses a negative LIMIT.
abbrev pub list_own :
    Finder → Tables → List UserRow → List String → ListQuery → ℕ → ℤ → Result Listing
list_own d t users [] q page limit = ok (empty_page limit page)
list_own d t users (i ∷ ids) q page (ℤ.pos limit) = ok (list_page d t users (i ∷ ids) q page limit)
list_own d t users (i ∷ ids) q page (ℤ.negsuc n) = err (fault Fault.database_error)

-- listTransactionsHandler
unfoldable pub list_transactions :
    Finder → String → ListQuery → Tables → List UserRow → Result Listing
unfolding list_page
list_transactions d user_id q t users =
    list_own d t users (own_ids t user_id) q (page_from (number_of d q.page))
      (limited_to (number_of d q.limit))
