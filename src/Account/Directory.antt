-- ===== src/Account/Directory.antt =====
-- services/account-service: createAccount, listAccounts, lookupAccount and getWeeklyStats, with their
-- queries. The process and the session run in UTC; a weekly sum is read as an exact number.
pub mod Lookup
pub mod Weekly
use settlr.Prelude.{
  ℕ, zero, suc, ◌+◌, ◌-◌, ◌*◌, ◌/◌, Bool, true, false, ◌&&◌, ◌||◌, not, Option, none, some, List,
  [], ◌∷◌, ◌++◌, String, map, same_text, has, ltb, leb, ◌==◌, if◌then◌else◌, find, keep, take,
  sum_by, sort_by,
}
use settlr.Database.{AccountStatus, AccountRow, TransactionRow, Tables}
use settlr.Auth.{UserRow, older}
use settlr.Books.{is_completed}
use settlr.Account.Chart.{day_length, date_of, dates_of, on_date}

-- The uuids and the clock of PostgreSQL; LIKE with the pattern `%query%` on texts in lower case; the
-- test for the form of a uuid; `query.length`.
pub record Directory : Type 0 where
  pub random_uuid : ℕ → String
  pub now : ℕ
  pub matches : String → String → Bool
  pub is_uuid : String → Bool
  pub text_length : String → ℕ

-- accountRepository.create, with the defaults of the table; the currency is INR.
unfoldable pub create_account : Directory → String → Tables → AccountRow × Tables
create_account d user_id t =
    let row : AccountRow = record {
      id = d.random_uuid t.draws;
      user_id = user_id;
      balance = 0;
      currency = "INR";
      status = AccountStatus.active;
      version = 0;
      created_at = d.now;
      updated_at = d.now;
    } in
    (row, record t { accounts = t.accounts ++ row ∷ []; draws = suc t.draws })

abbrev newest_account : AccountRow → AccountRow → Bool
newest_account a b = leb b.created_at a.created_at

-- accountRepository.findByUserId
unfoldable pub list_accounts : String → Tables → List AccountRow
list_accounts user_id t =
    sort_by newest_account (keep (λ row. same_text row.user_id user_id) t.accounts)

-- A row of the join of accounts and users.
pub record Joined : Type 0 where
  pub account : AccountRow
  pub user : UserRow

abbrev pub joined_with : AccountRow → List UserRow → List Joined
joined_with account [] = []
joined_with account (u ∷ users) =
    let rest = joined_with account users in
    if same_text account.user_id u.id then record { account = account; user = u } ∷ rest else rest

abbrev pub joined : List AccountRow → List UserRow → List Joined
joined [] users = []
joined (account ∷ accounts) users = joined_with account users ++ joined accounts users

abbrev pub name_matches : Directory → String → Option String → Bool
name_matches d query none = false
name_matches d query (some name) = d.matches query name

abbrev pub is_active_account : AccountStatus → Bool
is_active_account AccountStatus.active = true
is_active_account _ = false

-- The WHERE clauses of lookupByQuery.
abbrev pub is_match : Directory → String → Joined → Bool
is_match d query row =
    (d.matches query row.user.email
      || name_matches d query row.user.name
      || (d.is_uuid query && same_text row.account.id query))
    && row.user.is_active
    && is_active_account row.account.status

-- accountRepository.lookupByQuery
unfoldable pub lookup_by_query : Directory → String → Tables → List UserRow → List Joined
lookup_by_query d query t users = take 10 (keep (is_match d query) (joined t.accounts users))

pub record Recipient : Type 0 where
  pub id : String
  pub name : Option String
  pub email : String
  pub account_id : String

abbrev pub name_or_null : Option String → Option String
name_or_null none = none
name_or_null (some name) = if same_text name "" then none else some name

abbrev pub recipient : Joined → Recipient
recipient row = record {
  id = row.account.user_id;
  name = name_or_null row.user.name;
  email = row.user.email;
  account_id = row.account.id;
}

-- accountService.lookupAccount
unfoldable pub lookup_account : Directory → String → String → Tables → List UserRow → List Recipient
unfolding lookup_by_query
lookup_account d query current_user_id t users =
    if ltb (d.text_length query) 2
    then []
    else map recipient (
        keep (λ row. not (same_text row.account.user_id current_user_id))
          (lookup_by_query d query t users))

-- A day of getWeeklyStats; the date is the number of a UTC day.
pub record WeekDay : Type 0 where
  pub date : ℕ
  pub sent : ℕ
  pub received : ℕ

-- The last seven days, today last.
abbrev pub last_days : ℕ → ℕ → List ℕ
last_days today zero = []
last_days today (suc n) = (today - n) ∷ last_days today n

-- SELECT the date and SUM(amount) of the completed transactions of the accounts, from the first day on.
abbrev pub is_weekly : (TransactionRow → String) → List String → ℕ → TransactionRow → Bool
is_weekly side ids first row =
    has (side row) ids && is_completed row.status && leb (first * day_length) row.created_at

abbrev pub sums_by_date : List TransactionRow → List (ℕ × ℕ)
sums_by_date rows =
    map (λ d. (d, sum_by (λ row. row.amount) (keep (on_date d) rows))) (dates_of rows)

abbrev pub total_or_0 : Option (ℕ × ℕ) → ℕ
total_or_0 none = 0
total_or_0 (some x) = x.1

abbrev pub week_day : List (ℕ × ℕ) → List (ℕ × ℕ) → ℕ → WeekDay
week_day sent received d = record {
  date = d;
  sent = total_or_0 (find (λ x. x.0 == d) sent);
  received = total_or_0 (find (λ x. x.0 == d) received);
}

abbrev pub user_accounts : String → Tables → List String
user_accounts user_id t = map (λ a. a.id) (keep (λ a. same_text a.user_id user_id) t.accounts)

abbrev pub weekly_of : Directory → List String → Tables → List WeekDay
weekly_of d [] t = []
weekly_of d (i ∷ ids) t =
    let days = last_days (date_of d.now) 7 in
    let first = date_of d.now - 6 in
    let sent = keep (is_weekly (λ row. row.from_account_id) (i ∷ ids) first) t.transactions in
    let received = keep (is_weekly (λ row. row.to_account_id) (i ∷ ids) first) t.transactions in
    map (week_day (sums_by_date sent) (sums_by_date received)) days

-- accountRepository.getWeeklyStats
unfoldable pub get_weekly_stats : Directory → String → Tables → List WeekDay
get_weekly_stats d user_id t = weekly_of d (user_accounts user_id t) t
