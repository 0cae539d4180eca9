-- ===== src/Tests/Fraud.antt =====
-- A server that holds the signals of one account, a limiter that counts one window, and the theorems
-- on the fraud rules and on the rate limit at them.
use settlr.Prelude.{
  ℕ, ℤ, suc, ◌-◌, ◌≤◌, ◌<◌, ◌≡◌, ◌↔◌, refl, true, false, not, ◌==◌, List, [], ◌∷◌, ◌++◌, Option,
  none, some, String, has, length, length-append, drop, keep, if◌then◌else◌, arith,
}
use settlr.Errors.{ok}
use settlr.Database.{FraudAction, RuleName, SignalData}
use settlr.Payment.{FraudSignal, FraudResult}
use settlr.Fraud.{Signals}
use settlr.Fraud.Rules.{
  signal, check_velocity, check_amount_anomaly, check_recipient_risk, check_unusual_hour,
  check_new_account, check_round_amount,
}
use settlr.Fraud.Engine.{FraudInput, score_to_action, assess, run_fraud_engine}
use settlr.Fraud.Engine.Score.{Assessed, run_fraud_engine-Assessed}
use settlr.Redis.RateLimit.{Limiter, Decision, sliding_window_rate_limit}
use settlr.Redis.RateLimit.Counting.{sliding_window_rate_limit-counts}

abbrev record_add : String → List String → List String
record_add v vs = if has v vs then vs else vs ++ (v ∷ [])

record_add-again : (v : String) (vs : List String) → has v vs ≡ true → record_add v vs ≡ vs
record_add-again v vs h = ground arith

record_add-new :
    (v : String) (vs : List String) → has v vs ≡ false → length (record_add v vs) ≡ suc (length vs)
record_add-new v vs h = ground (arith, length-append vs (v ∷ []))

record Held : Type 0 where
  count : ℕ
  senders : List String
  amounts : List ℕ
  newest : ℕ

found_value {ℓ} : {A : Type ℓ} {u v : A} → Option.some u ≡ some v → v ≡ u
found_value h = cc

pub counted_value : {u v : ℕ} → Option.some (suc u) ≡ some v → (v ≡ suc u) × (suc u ≡ v)
counted_value h = (cc, cc)

abbrev one_account : Signals
one_account = record {
  Store = Held;
  counter = λ k s. s.count;
  members = λ k s. s.senders;
  range = λ k s. s.amounts;
  latest = λ k s. s.newest;
  incr = λ k s. (some (suc s.count), record s { count = suc s.count });
  expire = λ k n s. (some tt, s);
  zadd = λ k t m s.
      (some tt, record s { amounts = keep (λ x. not (x == m)) s.amounts ++ (m ∷ []); newest = t });
  zremrangebyrank =
      λ k start n s. (some tt, record s { amounts = drop (suc (length s.amounts) - n) s.amounts });
  zrange = λ k s. (some s.amounts, s);
  sadd = λ k v s. (some tt, record s { senders = record_add v s.senders });
  scard = λ k s. (some (length s.senders), s);
  incr-counter = λ k s h. counted_value h;
  expire-counter = λ j k n s. refl;
  expire-members = λ j k n s. refl;
  expire-range = λ j k n s. refl;
  zadd-latest = λ k t m s h later. refl;
  zremrangebyrank-range = λ k n s h. refl;
  zrange-range = λ k s h. found_value h;
  sadd-again = λ k v s h. record_add-again v s.senders h;
  sadd-new = λ k v s h n. record_add-new v s.senders n;
  scard-others = λ j k s. refl;
  scard-members = λ k s h. found_value h;
}

-- Three transfers in the last minute, ten senders, and five small amounts.
abbrev busy_account : Held
busy_account = record {
  count = 3;
  senders = "1" ∷ "2" ∷ "3" ∷ "4" ∷ "5" ∷ "6" ∷ "7" ∷ "8" ∷ "9" ∷ "10" ∷ [];
  amounts = 1 ∷ 2 ∷ 3 ∷ 4 ∷ 5 ∷ [];
  newest = 9;
}

abbrev fast : FraudSignal
fast = signal RuleName.velocity_check 25 (SignalData.transactions_in_last_minute 4)

abbrev large : FraudSignal
large = signal RuleName.amount_anomaly 30 (SignalData.amount_and_average 100000 16669)

abbrev risky : FraudSignal
risky = signal RuleName.recipient_risk 20 (SignalData.unique_senders 11)

velocity_run : (check_velocity one_account "a" busy_account).0 ≡ ok (some fast)
unfolding check_velocity
velocity_run = refl

abbrev quiet : Option FraudSignal
quiet = none

again_run : (check_recipient_risk one_account "b" "7" busy_account).0 ≡ ok quiet
unfolding check_recipient_risk
again_run = refl

new_run : (check_recipient_risk one_account "b" "11" busy_account).0 ≡ ok (some risky)
unfolding check_recipient_risk
new_run = refl

amount_run : (check_amount_anomaly one_account 10 "a" 100000 busy_account).0 ≡ ok (some large)
unfolding check_amount_anomaly
amount_run = refl

abbrev input : FraudInput
input = record {
  from_account_id = "a";
  to_account_id = "b";
  amount = 100000;
  account_created_at = 0;
}

abbrev declined : FraudResult
declined = record {
  score = 100;
  action = FraudAction.decline;
  signals =
      fast
      ∷ large
      ∷ signal RuleName.unusual_hour 10 (SignalData.hour_of_day 5)
      ∷ signal RuleName.new_account 15 (SignalData.account_age_in_days (ℤ.pos 0))
      ∷ signal RuleName.round_amount 5 (SignalData.round_number 100000)
      ∷ risky
      ∷ [];
}

engine_run : (run_fraud_engine one_account 10 input busy_account).0 ≡ ok declined
unfolding run_fraud_engine check_velocity check_amount_anomaly check_recipient_risk
    check_unusual_hour check_new_account check_round_amount assess score_to_action
engine_run = refl

run_fraud_engine-Assessed_example : Assessed declined
run_fraud_engine-Assessed_example =
    run_fraud_engine-Assessed one_account 10 input busy_account declined engine_run

abbrev pub one_window : Limiter
one_window = record {
  Store = ℕ;
  counter = λ k s. s;
  incr = λ k s. (some (suc s), suc s);
  pexpire = λ k n s. (some tt, s);
  pttl = λ k s. (some (ℤ.pos 1500), s);
  incr-counter = λ k s h. counted_value h;
  pexpire-counter = λ k n s. refl;
  pttl-counter = λ k s. refl;
}

abbrev refusal : Decision
refusal = record { allowed = false; remaining = 0; retry_after_seconds = some 2 }

limit_run : (sliding_window_rate_limit one_window 0 "ip" 60000 100 100).0 ≡ ok refusal
unfolding sliding_window_rate_limit
limit_run = refl

sliding_window_rate_limit-counts_example :
    ((sliding_window_rate_limit one_window 0 "ip" 60000 100 100).1 ≡ 101)
    × ((false ≡ true) ↔ (100 < 100))
    × (0 ≡ 100 - (sliding_window_rate_limit one_window 0 "ip" 60000 100 100).1)
    × ((1 ≤ 2) ↔ (false ≡ false))
sliding_window_rate_limit-counts_example =
    sliding_window_rate_limit-counts one_window 0 "ip" 60000 100 100 refusal limit_run
