-- ===== src/Account/Chart.antt =====
-- services/account-service: getAccountChart, and getChartData of the repository. A date is the number
-- of a UTC day, and the session and the process run in UTC. The sums are read as exact numbers,
-- which they are below 2^53 paise.
pub mod Days
use settlr.Prelude.{
  ℕ, zero, suc, ◌+◌, ◌-◌, ◌*◌, ◌/◌, Bool, true, false, ◌&&◌, ◌||◌, Option, none, some, List, [],
  ◌∷◌, String, map, same_text, leb, ltb, ◌==◌, min, max, if◌then◌else◌, find, keep, sum_by,
}
use settlr.Errors.{app, fault, Fault, Result, ok, err}
use settlr.Errors.Factory
use settlr.Action.{Action, pure, or_throw, ◌>>=◌, ◌>>◌}
use settlr.Redis.{Redis, Key, command}
use settlr.Database.{AccountRow, TransactionStatus, TransactionRow, Tables}
use settlr.Payment.{World, on_store, on_tables}
use settlr.Books.{is_completed}
use settlr.Account.{Pages, AccountState, read_uuid, find_by_id_and_user_id, cached_text}

-- The milliseconds of a day.
abbrev pub day_length : ℕ
day_length = 86400000

abbrev pub date_of : ℕ → ℕ
date_of time = time / day_length

-- A row of the grouped query.
pub record Point : Type 0 where
  pub date : ℕ
  pub sent : ℕ
  pub received : ℕ

pub record ChartDay : Type 0 where
  pub day : String
  pub sent : ℕ
  pub received : ℕ

-- The clock, and `toLocaleDateString('en-US', { weekday: 'short' })`.
pub record Calendar : Type 0 where
  pub now : ℕ
  pub weekday : ℕ → String

-- Math.min(Math.max(days, 1), 30)
abbrev pub safe_days : ℕ → ℕ
safe_days days = min (max days 1) 30

-- The WHERE clauses: completed, from or to the account, and not older than the interval.
unfoldable pub is_charted : Calendar → String → ℕ → TransactionRow → Bool
is_charted c u days row =
    (same_text row.from_account_id u || same_text row.to_account_id u)
    && leb c.now (row.created_at + days * day_length)
    && is_completed row.status

abbrev insert_date : ℕ → List ℕ → List ℕ
insert_date d [] = d ∷ []
insert_date d (e ∷ ds) =
    let rest = insert_date d ds in
    if d == e then e ∷ ds else if ltb d e then d ∷ e ∷ ds else e ∷ rest

-- The dates of the rows, each once and in ascending order.
abbrev pub dates_of : List TransactionRow → List ℕ
dates_of [] = []
dates_of (row ∷ rows) = insert_date (date_of row.created_at) (dates_of rows)

abbrev pub on_date : ℕ → TransactionRow → Bool
on_date d row = date_of row.created_at == d

abbrev pub sent_by : String → TransactionRow → ℕ
sent_by u row = if same_text row.from_account_id u then row.amount else 0

abbrev pub received_by : String → TransactionRow → ℕ
received_by u row = if same_text row.to_account_id u then row.amount else 0

-- SELECT the two sums of one date.
abbrev pub point : String → List TransactionRow → ℕ → Point
point u rows d = record {
  date = d;
  sent = sum_by (sent_by u) (keep (on_date d) rows);
  received = sum_by (received_by u) (keep (on_date d) rows);
}

-- GROUP BY the date
unfoldable pub points : String → List TransactionRow → List Point
points u rows = map (point u rows) (dates_of rows)

abbrev pub sent_or_0 : Option Point → ℕ
sent_or_0 none = 0
sent_or_0 (some x) = x.sent

abbrev pub received_or_0 : Option Point → ℕ
received_or_0 none = 0
received_or_0 (some x) = x.received

abbrev pub days_ago : Calendar → ℕ → ℕ
days_ago c i = c.now - i * day_length

abbrev pub chart_day : Calendar → List Point → ℕ → ChartDay
chart_day c xs i =
    let existing = find (λ x. x.date == date_of (days_ago c i)) xs in
    record {
      day = c.weekday (days_ago c i);
      sent = sent_or_0 existing;
      received = received_or_0 existing;
    }

-- `for (let i = days - 1; i >= 0; i -= 1)`
unfoldable pub fill : Calendar → List Point → ℕ → List ChartDay
fill c xs zero = []
fill c xs (suc i) = chart_day c xs i ∷ fill c xs i

-- accountRepository.getChartData
unfoldable pub chart_data : Calendar → String → ℕ → List TransactionRow → List ChartDay
unfolding points is_charted
chart_data c u days rows = fill c (points u (keep (is_charted c u days) rows)) days

module _ {A : Type 0} (p : Pages A) (stringify : List ChartDay → String)
    (parse : String → Option (List ChartDay)) (c : Calendar) where
  abbrev get_chart_data : String → ℕ → Action Tables (List ChartDay)
  get_chart_data i days = do u ← read_uuid p i; λ t. (ok (chart_data c u days t.transactions), t)

  abbrev serve_chart : Key → String → ℕ → Option String → Action (AccountState p) (List ChartDay)
  serve_chart key i days (some text) = or_throw (parse text) (fault Fault.malformed_json)
  serve_chart key i days none = do
    chart ← on_tables (get_chart_data i days)
    on_store (command (p.redis.setex key 300 (stringify chart)))
    pure chart

  -- accountService.getAccountChart: the account and the cache are both read before either is used.
  unfoldable pub get_account_chart : String → String → ℕ → Action (AccountState p) (List ChartDay)
  unfolding chart_data find_by_id_and_user_id
  get_account_chart i user_id days = do
    let key = Key.cache_chart i (safe_days days)
    account ← on_tables (find_by_id_and_user_id p i user_id)
    cached ← on_store (command (p.redis.get key))
    or_throw account (app Factory.not_found)
    serve_chart key i (safe_days days) (cached_text p cached)
