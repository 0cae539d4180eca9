-- ===== src/Account/Chart/Days.antt =====
-- What a chart shows.
use settlr.Prelude.{
  ℕ, zero, suc, ◌+◌, ◌-◌, ◌*◌, ◌≤◌, ◌<◌, ◌≡◌, refl, ap, ◌∙◌, sym, Bool, true, false, ◌||◌, Option,
  none, some, List, [], ◌∷◌, String, map, leb, ◌==◌, if◌then◌else◌, find, keep, sum_by, arith,
}
use native.Mathlib.Decide.{ℕ_discrete}
use settlr.Database.{TransactionRow}
use settlr.Books.{sent_amount, received_amount}
use settlr.Account.Chart.{
  day_length, date_of, Point, ChartDay, Calendar, is_charted, insert_date, dates_of, on_date,
  sent_by, received_by, point, points, sent_or_0, received_or_0, days_ago, fill, chart_data,
}

unfoldable pub has_date : ℕ → List ℕ → Bool
has_date d [] = false
has_date d (e ∷ ds) = d == e || has_date d ds

has_date-insert :
    (d e : ℕ) (ds : List ℕ) → has_date d (insert_date e ds) ≡ (d == e || has_date d ds)
unfolding has_date
has_date-insert d e [] = refl
has_date-insert d e (x ∷ ds) = ground (arith, has_date-insert d e ds)

-- A date of no row selects no row.
pub keep-absent :
    (d : ℕ) (rows : List TransactionRow)
    → has_date d (dates_of rows) ≡ false
    → keep (on_date d) rows ≡ []
keep-absent d [] h = refl
keep-absent d (row ∷ rows) h =
    let e = has_date-insert d (date_of row.created_at) (dates_of rows) in
    ground (arith, e, keep-absent d rows)

-- Among one element for each of some dates.
pub find-dated {ℓ} :
    {A : Type ℓ} (date : A → ℕ) (f : ℕ → A) (d : ℕ) (ds : List ℕ)
    → ((e : ℕ) → date (f e) ≡ e)
    → find (λ x. date x == d) (map f ds) ≡ (if has_date d ds then some (f d) else none)
unfolding has_date
find-dated date f d [] dated = refl
find-dated date f d (e ∷ ds) dated = elim (ℕ_discrete d e) [
  | yes h ↦ ground (arith, dated e, h, ap f h)
  | no n ↦ ground (arith, dated e, n, find-dated date f d ds dated)
]

-- The sums of a date in the grouped rows, which are 0 for a date that no row has.
points-sums :
    (u : String) (rows : List TransactionRow) (d : ℕ)
    → let found = find (λ x. x.date == d) (points u rows) in
      (sent_or_0 found ≡ sum_by (sent_by u) (keep (on_date d) rows))
      × (received_or_0 found ≡ sum_by (received_by u) (keep (on_date d) rows))
unfolding points
points-sums u rows d = go (has_date d (dates_of rows)) refl
  where
    found : Option Point
    found = find (λ x. x.date == d) (points u rows)

    at_date : found ≡ (if has_date d (dates_of rows) then some (point u rows d) else none)
    at_date = find-dated (λ (x : Point). x.date) (point u rows) d (dates_of rows) (λ e. refl)

    go :
        (b : Bool)
        → has_date d (dates_of rows) ≡ b
        → (sent_or_0 found ≡ sum_by (sent_by u) (keep (on_date d) rows))
          × (received_or_0 found ≡ sum_by (received_by u) (keep (on_date d) rows))
    go true h =
        let e = at_date ∙ ap (λ b. if b then some (point u rows d) else none) h in
        (ap sent_or_0 e, ap received_or_0 e)
    go false h =
        let e = at_date ∙ ap (λ b. if b then some (point u rows d) else none) h in
        let empty = keep-absent d rows h in
        (
          ap sent_or_0 e ∙ sym (ap (sum_by (sent_by u)) empty),
          ap received_or_0 e ∙ sym (ap (sum_by (received_by u)) empty),
        )

-- A day of the chart lies in the interval of the query.
in_interval :
    (now created days i : ℕ)
    → i < days
    → date_of created ≡ date_of (now - i * day_length)
    → leb now (created + days * day_length) ≡ true
in_interval now created days i h e = ground arith

-- What an account sent or received on a date, by all transactions.
abbrev pub sent_on : String → ℕ → List TransactionRow → ℕ
sent_on u d rows = sum_by (λ row. if on_date d row then sent_amount u row else 0) rows

abbrev pub received_on : String → ℕ → List TransactionRow → ℕ
received_on u d rows = sum_by (λ row. if on_date d row then received_amount u row else 0) rows

charted-sums :
    (c : Calendar) (u : String) (days i : ℕ) (rows : List TransactionRow)
    → i < days
    → let d = date_of (days_ago c i) in
      let charted = keep (on_date d) (keep (is_charted c u days) rows) in
      (sum_by (sent_by u) charted ≡ sent_on u d rows)
      × (sum_by (received_by u) charted ≡ received_on u d rows)
unfolding is_charted
charted-sums c u days i [] h = (refl, refl)
charted-sums c u days i (row ∷ rows) h =
    ground (arith, in_interval c.now row.created_at days i h, charted-sums c u days i rows h)

-- One day for each of the last days, today last, with what the account sent and received on it.
abbrev pub by_day : Calendar → String → List TransactionRow → ℕ → List ChartDay
by_day c u rows zero = []
by_day c u rows (suc i) =
    record {
      day = c.weekday (days_ago c i);
      sent = sent_on u (date_of (days_ago c i)) rows;
      received = received_on u (date_of (days_ago c i)) rows;
    }
    ∷ by_day c u rows i

fill-by_day :
    (c : Calendar) (u : String) (days : ℕ) (rows : List TransactionRow) (n : ℕ)
    → n ≤ days
    → fill c (points u (keep (is_charted c u days) rows)) n ≡ by_day c u rows n
unfolding fill
fill-by_day c u days rows zero h = refl
fill-by_day c u days rows (suc i) h =
    let d = date_of (days_ago c i) in
    let sums = points-sums u (keep (is_charted c u days) rows) d in
    let charted = charted-sums c u days i rows (omega arith) in
    cc (sums.0, sums.1, charted.0, charted.1, fill-by_day c u days rows i (omega arith))

-- For every number of days, the chart of an account has one entry for each of the last days up to
-- today, in order, that holds the sum of the completed amounts that the account sent on that UTC day
-- and the sum of those that it received, over all transactions of the table: the interval of the
-- query leaves none of them out, and a day without a transaction has two zeros.
pub chart_data-by_day :
    (c : Calendar) (u : String) (days : ℕ) (rows : List TransactionRow)
    → chart_data c u days rows ≡ by_day c u rows days
unfolding chart_data
chart_data-by_day c u days rows = fill-by_day c u days rows days (omega arith)
