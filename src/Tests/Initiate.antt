-- ===== src/Tests/Initiate.antt =====
-- Whole payments on the platform of the tests.
use settlr.Prelude.{◌≡◌, refl, true, false, [], ◌∷◌, none, some, text-discrete}
use native.Mathlib.Decide.{ℕ_discrete}
use settlr.Errors.{ok}
use settlr.Redis.{Key, Key-discrete}
use settlr.Redis.Lock.{
  Locks, acquire_account_locks, acquire_lock, release_lock, first_lock, second_lock,
  release_all_locks,
}
use settlr.Redis.Memory.{memory, empty}
use settlr.Database.{parse_bigint}
use settlr.Kafka.{publish_event}
use settlr.Payment.{PaymentResult, Platform}
use settlr.Payment.Repository.{
  fits_char, has_nul, select_account, lock_account, read_row, update_balance, credit_account,
  create, create_entries, create_pair, insert_fraud_signals,
}
use settlr.Payment.Transfer.{transfer}
use settlr.Payment.Attempts.{attempts}
use settlr.Payment.Initiate.{
  State, idempotency_get, idempotency_set, run_fraud_check, validate, load_sender, reject_high_risk,
  invalidate, complete, locked_payment, report_failure, fresh_payment, initiate_payment,
}
use settlr.Payment.Initiate.Atomic.{Ends}
use settlr.Payment.Initiate.Outcome.{initiate_payment-Ends}
use settlr.Payment.Initiate.Cache.{fresh_payment-releases}
use settlr.Payment.Initiate.Replay.{initiate_payment-replay}
use settlr.Tests.Payment.{platform, params, tables, written}

abbrev pub recorded : Platform
recorded = record platform { parse = λ text. some (written "b" 30) }

abbrev pub world : State recorded
world = record { store = empty; tables = tables; outbox = record { sent = []; drawn = 0 } }

abbrev pub first : PaymentResult
first = record { transaction = written "b" 30; from_cache = false; status_code = 201 }

pub initiate_run : (initiate_payment recorded (params "b" 30) world).0 ≡ ok first
unfolding initiate_payment idempotency_get fresh_payment validate acquire_account_locks acquire_lock
    first_lock second_lock release_lock release_all_locks locked_payment load_sender select_account
    run_fraud_check reject_high_risk attempts transfer lock_account read_row parse_bigint
    update_balance credit_account create create_entries create_pair insert_fraud_signals fits_char
    has_nul complete idempotency_set invalidate report_failure publish_event Key-discrete
    text-discrete ℕ_discrete
initiate_run = refl

abbrev pub after_first : State recorded
after_first = (initiate_payment recorded (params "b" 30) world).1

initiate_payment-Ends_example :
    Ends recorded
      (params "b" 30)
      tables
      (initiate_payment recorded (params "b" 30) world).0
      after_first.tables
initiate_payment-Ends_example = initiate_payment-Ends recorded (params "b" 30) world

-- The second request names another amount.
initiate_payment-replay_example :
    let again = initiate_payment recorded (params "b" 99) after_first in
    (again.0 ≡ ok (record { transaction = written "b" 30; from_cache = true; status_code = 200 }))
    × (again.1.tables ≡ after_first.tables)
    × (again.1.outbox ≡ after_first.outbox)
initiate_payment-replay_example =
    initiate_payment-replay recorded (params "b" 30) (params "b" 99) world first initiate_run refl
      refl refl (λ e. cc)

abbrev both : Locks
both = record { acquired = true; lock_keys = Key.account_lock "a" ∷ Key.account_lock "b" ∷ [] }

both_run : (acquire_account_locks memory "a" "b" 10 empty).0 ≡ ok both
unfolding acquire_account_locks acquire_lock first_lock second_lock Key-discrete text-discrete
    ℕ_discrete
both_run = refl

fresh_run : (fresh_payment recorded (params "b" 30) world).0 ≡ ok first
unfolding fresh_payment validate acquire_account_locks acquire_lock first_lock second_lock
    release_lock release_all_locks locked_payment load_sender select_account run_fraud_check
    reject_high_risk attempts transfer lock_account read_row parse_bigint update_balance
    credit_account create create_entries create_pair insert_fraud_signals fits_char has_nul complete
    idempotency_set invalidate report_failure publish_event Key-discrete text-discrete ℕ_discrete
fresh_run = refl

valid_run : (validate recorded (params "b" 30) world).0 ≡ ok tt
unfolding validate
valid_run = refl

fresh_payment-releases_example :
    let out = fresh_payment recorded (params "b" 30) world in
    (memory.value (Key.account_lock "a") out.1.store ≡ none)
    × (memory.value (Key.account_lock "b") out.1.store ≡ none)
fresh_payment-releases_example =
    fresh_payment-releases recorded (params "b" 30) world both valid_run both_run refl
      (λ e. cc (e, fresh_run))
