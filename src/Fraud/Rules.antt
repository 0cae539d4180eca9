-- ===== src/Fraud/Rules.antt =====
-- fraud-service/src/engine/rules: the six rules. `now` is Date.now() in milliseconds, and an amount
-- is in paise. A rule that does not fire returns `none`.
pub mod Amount
pub mod Counters
use settlr.Prelude.{
  ℕ, ℤ, ◌+◌, ◌-◌, ◌*◌, ◌/◌, ◌%◌, Bool, true, false, ◌&&◌, Option, none, some, List, [], ◌∷◌, String,
  ltb, leb, ◌==◌, if◌then◌else◌, length, sum_by,
}
use settlr.Action.{Action, pure, ◌>>=◌, ◌>>◌}
use settlr.Redis.{command}
use settlr.Database.{RuleName, SignalData}
use settlr.Payment.{FraudSignal}
use settlr.Fraud.{FraudKey, Signals}

abbrev pub signal : RuleName → ℕ → SignalData → FraudSignal
signal rule points context = record {
  rule_name = rule;
  score_added = points;
  signal_data = context;
}

-- velocityRule.ts, after INCR replied.
abbrev pub velocity_signal : ℕ → Option FraudSignal
velocity_signal count =
    if ltb 3 count
    then some (signal RuleName.velocity_check 25 (SignalData.transactions_in_last_minute count))
    else none

-- Math.round of a quotient.
abbrev rounded : ℕ → ℕ → ℕ
rounded n d = (2 * n + d) / (2 * d)

-- amountAnomalyRule.ts, after ZRANGE replied. The average is the exact quotient, so the test
-- `amount > avg * 5` is a comparison of products.
abbrev pub amount_signal : ℕ → List ℕ → Option FraudSignal
amount_signal amount amounts =
    if ltb (length amounts) 3
    then none
    else (if ltb (sum_by (λ a. a) amounts * 5) (amount * length amounts)
        then some (
            signal RuleName.amount_anomaly 30 (
              SignalData.amount_and_average amount
                (rounded (sum_by (λ a. a) amounts) (length amounts))))
        else none)

-- The hour of the day in IST, which is UTC+5:30.
abbrev pub hour_of : ℕ → ℕ
hour_of now = ((now + 19800000) / 3600000) % 24

-- unusualHourRule.ts
unfoldable pub check_unusual_hour : ℕ → Option FraudSignal
check_unusual_hour now =
    let hour = hour_of now in
    if leb 1 hour && leb hour 5
    then some (signal RuleName.unusual_hour 10 (SignalData.hour_of_day hour))
    else none

-- Math.floor of the age in days, which is negative for an account created after `now`.
abbrev pub age_in_days : ℕ → ℕ → ℤ
age_in_days now created =
    if leb created now
    then ℤ.pos ((now - created) / 86400000)
    else ℤ.negsuc ((created - now - 1) / 86400000)

-- newAccountRule.ts: the test `ageDays < 7` is made on milliseconds.
unfoldable pub check_new_account : ℕ → ℕ → Option FraudSignal
check_new_account now created =
    if ltb now (created + 7 * 86400000)
    then some
        (signal RuleName.new_account 15 (SignalData.account_age_in_days (age_in_days now created)))
    else none

-- SUSPICIOUS_AMOUNTS
abbrev pub suspicious_amounts : List ℕ
suspicious_amounts = 100000 ∷ 500000 ∷ 1000000 ∷ 5000000 ∷ []

-- Array.prototype.includes
abbrev pub includes : ℕ → List ℕ → Bool
includes n [] = false
includes n (x ∷ xs) = let rest = includes n xs in if x == n then true else rest

-- roundAmountRule.ts
unfoldable pub check_round_amount : ℕ → Option FraudSignal
check_round_amount amount =
    if includes amount suspicious_amounts
    then some (signal RuleName.round_amount 5 (SignalData.round_number amount))
    else none

-- recipientRiskRule.ts, after SCARD replied.
abbrev pub recipient_signal : ℕ → Option FraudSignal
recipient_signal unique_senders =
    if ltb 10 unique_senders
    then some (signal RuleName.recipient_risk 20 (SignalData.unique_senders unique_senders))
    else none

module _ (r : Signals) where
  -- checkVelocity
  unfoldable pub check_velocity : String → Action r.Store (Option FraudSignal)
  check_velocity account_id = do
    let key = FraudKey.velocity account_id
    count ← command (r.incr key)
    command (r.expire key 60)
    pure (velocity_signal count)

  -- checkAmountAnomaly
  unfoldable pub check_amount_anomaly : ℕ → String → ℕ → Action r.Store (Option FraudSignal)
  check_amount_anomaly now account_id amount = do
    let key = FraudKey.amounts account_id
    command (r.zadd key now amount)
    command (r.zremrangebyrank key 0 21)
    command (r.expire key 2592000)
    amounts ← command (r.zrange key)
    pure (amount_signal amount amounts)

  -- checkRecipientRisk
  unfoldable pub check_recipient_risk : String → String → Action r.Store (Option FraudSignal)
  check_recipient_risk to_account_id from_account_id = do
    let key = FraudKey.recipient to_account_id
    command (r.sadd key from_account_id)
    command (r.expire key 3600)
    unique_senders ← command (r.scard key)
    pure (recipient_signal unique_senders)
