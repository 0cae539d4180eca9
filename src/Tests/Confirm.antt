-- ===== src/Tests/Confirm.antt =====
-- The last screen of sending money, on the platform of the tests.
use settlr.Prelude.{◌≡◌, ◌⊎◌, refl, [], ◌∷◌, List, some, map}
use settlr.Database.{TransactionRow}
use settlr.Gateway.{Delivery, Edges}
use settlr.Ui.Confirm.{Props, Press, request_of, new_screen, press_all}
use settlr.Ui.Confirm.Once.{Paid, press_all-pays_once}
use settlr.Ui.ConfirmStep.{LastStep, first_shown, confirm, try_again}
use native.Mathlib.Decide.{ℕ_discrete}
use settlr.Prelude.{text-discrete}
use settlr.Redis.{Key-discrete}
use settlr.Redis.Lock.{
  acquire_account_locks, acquire_lock, first_lock, second_lock, release_lock, release_all_locks,
}
use settlr.Redis.RateLimit.{sliding_window_rate_limit}
use settlr.Gateway.{
  post_api_payments, rate_limit_key, payment_route, auth_middleware, validate_payment,
  proxy_payment,
}
use settlr.Payment.Handler.{
  initiate_payment_handler, post_payments, parse_amount_in_paise, positive_amount,
}
use settlr.Database.{parse_bigint}
use settlr.Kafka.{publish_event}
use settlr.Payment.Repository.{
  fits_char, has_nul, select_account, lock_account, read_row, update_balance, credit_account,
  create, create_entries, create_pair, insert_fraud_signals,
}
use settlr.Payment.Transfer.{transfer}
use settlr.Payment.Attempts.{attempts}
use settlr.Payment.Initiate.{
  idempotency_get, idempotency_set, run_fraud_check, validate, load_sender, reject_high_risk,
  invalidate, complete, locked_payment, report_failure, fresh_payment, initiate_payment,
}
use settlr.Webhook.Dispatcher.{is_ok}
use settlr.Tests.Payment.{tables}
use settlr.Tests.Initiate.{recorded}
use settlr.Tests.Gateway.{edge, numbers, edges}

abbrev props : Props
props = record { recipient_id = "b"; amount_paise = 30; purpose = ""; sender_account_number = "a" }

abbrev press : Delivery → Press
press d = record {
  access_token = some "token";
  ip = "localhost";
  trace_id = "t";
  to_gateway = d;
  to_service = Delivery.answered;
}

-- The first reply is lost.
abbrev presses : List Press
presses = press Delivery.lost ∷ press Delivery.answered ∷ []

press_all-pays_once_example :
    let t' =
      (press_all edge recorded numbers is_ok props presses (new_screen "k") edges).1.inner.tables in
    (t' ≡ tables) ⊎ Paid edge recorded numbers is_ok props "k" tables t'
press_all-pays_once_example =
    press_all-pays_once edge recorded numbers is_ok props "k" presses edges

-- The older screen draws a new key for "Try Again": the same presses pay twice.
abbrev lost_once : LastStep × Edges edge recorded numbers
lost_once = confirm edge recorded numbers is_ok props (press Delivery.lost) (first_shown "k") edges

abbrev tried_again : LastStep × Edges edge recorded numbers
tried_again =
    confirm edge recorded numbers is_ok props (press Delivery.answered) (try_again "l" lost_once.0)
      lost_once.1

pays_twice :
    map (λ (row : TransactionRow). row.amount) tried_again.1.inner.tables.transactions
    ≡ 30 ∷ 30 ∷ []
unfolding confirm try_again request_of post_api_payments rate_limit_key payment_route
    auth_middleware validate_payment proxy_payment post_payments initiate_payment_handler
    parse_amount_in_paise positive_amount sliding_window_rate_limit initiate_payment idempotency_get
    fresh_payment validate acquire_account_locks acquire_lock first_lock second_lock release_lock
    release_all_locks locked_payment load_sender select_account run_fraud_check reject_high_risk
    attempts transfer lock_account read_row parse_bigint update_balance credit_account create
    create_entries create_pair insert_fraud_signals fits_char has_nul complete idempotency_set
    invalidate report_failure publish_event Key-discrete text-discrete ℕ_discrete
pays_twice = refl
