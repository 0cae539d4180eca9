-- ===== src/Tests/Fresh.antt =====
-- The history and the chart of an account after a payment on the platform of the tests.
use settlr.Prelude.{◌≡◌, refl, inl, false, List, [], ◌∷◌, Option, none, String}
use native.Mathlib.Decide.{ℕ_discrete}
use settlr.Errors.{ok}
use settlr.Redis.{Key-discrete}
use settlr.Prelude.{text-discrete}
use settlr.Redis.Lock.{
  acquire_account_locks, acquire_lock, release_lock, first_lock, second_lock, release_all_locks,
}
use settlr.Database.{TransactionRow, parse_bigint}
use settlr.Kafka.{publish_event}
use settlr.Payment.Repository.{
  fits_char, has_nul, select_account, lock_account, read_row, update_balance, credit_account,
  create, create_entries, create_pair, insert_fraud_signals,
}
use settlr.Payment.Transfer.{transfer}
use settlr.Payment.Attempts.{attempts}
use settlr.Payment.Initiate.{
  idempotency_get, idempotency_set, run_fraud_check, validate, load_sender, reject_high_risk,
  invalidate, complete, locked_payment, report_failure, fresh_payment, initiate_payment,
}
use settlr.Account.{
  Page, account_transactions, page_of, query_page, find_by_id_and_user_id, read_page, get_history,
  get_transactions,
}
use settlr.Account.Chart.{
  ChartDay, Calendar, is_charted, points, fill, chart_data, get_account_chart,
}
use settlr.Account.Chart.Days.{by_day}
use settlr.Account.Freshness.{pages, initiate_payment-shows}
use settlr.Tests.Payment.{params, written, tables}
use settlr.Tests.Initiate.{recorded, world, first, initiate_run, after_first}

-- A Tuesday.
abbrev calendar : Calendar
calendar = record { now = 7; weekday = λ time. "Tue" }

abbrev page_text : Page TransactionRow → String
page_text page = "page"

abbrev no_page : String → Option (Page TransactionRow)
no_page text = none

abbrev chart_text : List ChartDay → String
chart_text chart = "chart"

abbrev no_chart : String → Option (List ChartDay)
no_chart text = none

abbrev listed : Page TransactionRow
listed = record {
  items = written "b" 30 ∷ [];
  total = 1;
  page = 1;
  limit = 20;
  total_pages = 1;
  has_more = false;
}

listed_run :
    (get_transactions (pages recorded page_text no_page) "a" "u" 1 20 after_first).0 ≡ ok listed
unfolding initiate_payment idempotency_get fresh_payment validate acquire_account_locks acquire_lock
    first_lock second_lock release_lock release_all_locks locked_payment load_sender select_account
    run_fraud_check reject_high_risk attempts transfer lock_account read_row parse_bigint
    update_balance credit_account create create_entries create_pair insert_fraud_signals fits_char
    has_nul complete idempotency_set invalidate report_failure publish_event Key-discrete
    text-discrete ℕ_discrete account_transactions page_of query_page find_by_id_and_user_id
    read_page get_history get_transactions
listed_run = refl

abbrev shown : List ChartDay
shown = by_day calendar "a" (written "b" 30 ∷ []) 7

shown_run :
    (get_account_chart
      (pages recorded page_text no_page)
      chart_text
      no_chart
      calendar
      "a"
      "u"
      7
      after_first).0
    ≡ ok shown
unfolding initiate_payment idempotency_get fresh_payment validate acquire_account_locks acquire_lock
    first_lock second_lock release_lock release_all_locks locked_payment load_sender select_account
    run_fraud_check reject_high_risk attempts transfer lock_account read_row parse_bigint
    update_balance credit_account create create_entries create_pair insert_fraud_signals fits_char
    has_nul complete idempotency_set invalidate report_failure publish_event Key-discrete
    text-discrete ℕ_discrete find_by_id_and_user_id is_charted points fill chart_data
    get_account_chart
shown_run = refl

initiate_payment-shows_example :
    (listed.items
      ≡ page_of 1 20
          (account_transactions "a" (record tables { transactions = written "b" 30 ∷ [] })))
    × (shown ≡ by_day calendar "a" (written "b" 30 ∷ []) 7)
initiate_payment-shows_example =
    initiate_payment-shows recorded (params "b" 30) world first initiate_run refl page_text no_page
      chart_text no_chart calendar "a" "u" "a" (inl refl) refl listed listed_run shown shown_run
