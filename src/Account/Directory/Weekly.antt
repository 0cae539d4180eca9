-- ===== src/Account/Directory/Weekly.antt =====
-- What the weekly sums of a user say.
use settlr.Prelude.{
  ℕ, zero, suc, ◌-◌, ◌*◌, ◌≤◌, ◌≡◌, refl, sym, ap, ◌∙◌, Bool, true, false, ◌&&◌, none, some, List,
  [], ◌∷◌, String, map, has, leb, ◌==◌, if◌then◌else◌, find, keep, sum_by, arith,
}
use settlr.Database.{TransactionRow, Tables}
use settlr.Books.{is_completed}
use settlr.Account.Chart.{day_length, date_of, dates_of, on_date}
use settlr.Account.Chart.Days.{has_date, keep-absent, find-dated}
use settlr.Account.Directory.{
  Directory, WeekDay, last_days, is_weekly, sums_by_date, total_or_0, week_day, user_accounts,
  weekly_of, get_weekly_stats,
}

-- The completed amounts of a UTC day on one side of the accounts, over all transactions.
abbrev pub moved_on : (TransactionRow → String) → List String → ℕ → List TransactionRow → ℕ
moved_on side ids d rows =
    sum_by
      (λ row.
        if on_date d row
        then (if has (side row) ids && is_completed row.status then row.amount else 0)
        else 0)
      rows

-- One entry for each of the last seven days, today last.
abbrev pub by_week : Directory → List String → List TransactionRow → List WeekDay
by_week d [] rows = []
by_week d (i ∷ ids) rows =
    map
      (λ date. record {
        date = date;
        sent = moved_on (λ row. row.from_account_id) (i ∷ ids) date rows;
        received = moved_on (λ row. row.to_account_id) (i ∷ ids) date rows;
      })
      (last_days (date_of d.now) 7)

-- The total of a date in the grouped rows, which is 0 for a date that no row has.
total-sums :
    (rows : List TransactionRow) (d : ℕ)
    → total_or_0 (find (λ x. x.0 == d) (sums_by_date rows))
      ≡ sum_by (λ row. row.amount) (keep (on_date d) rows)
total-sums rows d = go (has_date d (dates_of rows)) refl
  where
    f : ℕ → ℕ × ℕ
    f e = (e, sum_by (λ row. row.amount) (keep (on_date e) rows))

    go :
        (b : Bool)
        → has_date d (dates_of rows) ≡ b
        → total_or_0 (find (λ x. x.0 == d) (sums_by_date rows))
          ≡ sum_by (λ row. row.amount) (keep (on_date d) rows)
    go true h = ap total_or_0 (
        find-dated (λ (x : ℕ × ℕ). x.0) f d (dates_of rows) (λ e. refl)
        ∙ ap (λ b. if b then some (f d) else none) h)
    go false h =
        ap total_or_0 (
          find-dated (λ (x : ℕ × ℕ). x.0) f d (dates_of rows) (λ e. refl)
          ∙ ap (λ b. if b then some (f d) else none) h)
        ∙ sym (ap (sum_by (λ (row : TransactionRow). row.amount)) (keep-absent d rows h))

-- A day of the week lies after the first instant that the query asks for.
in_week :
    (first d created : ℕ)
    → first ≤ d
    → date_of created ≡ d
    → leb (first * day_length) created ≡ true
in_week first d created h e = ground arith

weekly-sum :
    (side : TransactionRow → String) (ids : List String) (first d : ℕ) (rows : List TransactionRow)
    → first ≤ d
    → sum_by (λ row. row.amount) (keep (on_date d) (keep (is_weekly side ids first) rows))
      ≡ moved_on side ids d rows
weekly-sum side ids first d [] h = refl
weekly-sum side ids first d (row ∷ rows) h =
    ground (arith, in_week first d row.created_at h, weekly-sum side ids first d rows h)

week-days :
    (ids : List String) (today n : ℕ) (rows : List TransactionRow)
    → n ≤ 7
    → let sums = λ (side : TransactionRow → String).
      sums_by_date (keep (is_weekly side ids (today - 6)) rows) in
      map
        (week_day (sums (λ row. row.from_account_id)) (sums (λ row. row.to_account_id)))
        (last_days today n)
      ≡ map
          (λ date. record {
            date = date;
            sent = moved_on (λ row. row.from_account_id) ids date rows;
            received = moved_on (λ row. row.to_account_id) ids date rows;
          })
          (last_days today n)
week-days ids today zero rows h = refl
week-days ids today (suc n) rows h =
    let d = today - n in
    let weekly = λ (side : TransactionRow → String). keep (is_weekly side ids (today - 6)) rows in
    let side_sum = λ (side : TransactionRow → String).
      total-sums (weekly side) d ∙ weekly-sum side ids (today - 6) d rows (omega (arith, h)) in
    cc (
      side_sum (λ row. row.from_account_id),
      side_sum (λ row. row.to_account_id),
      week-days ids today n rows (omega arith),
    )

-- The weekly statistics of a user without accounts are empty; those of any other user have one entry
-- for each of the last seven UTC days up to today, in order, with the sum of the completed amounts
-- that the user's accounts sent on that day and the sum of those that they received, over all
-- transactions of the table: the query leaves none of them out, and a day without a transaction has
-- two zeros.
pub get_weekly_stats-by_week :
    (d : Directory) (user_id : String) (t : Tables)
    → get_weekly_stats d user_id t ≡ by_week d (user_accounts user_id t) t.transactions
unfolding get_weekly_stats
get_weekly_stats-by_week d user_id t = of_accounts (user_accounts user_id t)
  where
    of_accounts : (ids : List String) → weekly_of d ids t ≡ by_week d ids t.transactions
    of_accounts [] = refl
    of_accounts (i ∷ ids) = week-days (i ∷ ids) (date_of d.now) 7 t.transactions (omega arith)
