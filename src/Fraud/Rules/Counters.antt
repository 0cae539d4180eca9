-- ===== src/Fraud/Rules/Counters.antt =====
-- The rules that count in Redis, and the rule on the hour of the day.
use settlr.Prelude.{
  ℕ, suc, ◌+◌, ◌%◌, ◌≤◌, ◌<◌, ◌≡◌, ◌≢◌, ◌↔◌, ap, ◌∙◌, inl, inr, Option, none, Option-cases, String,
  true, false, has, length, arith,
}
use settlr.Errors.{ok}
use settlr.Payment.{FraudSignal}
use settlr.Fraud.{FraudKey, Signals}
use settlr.Fraud.Rules.{check_velocity, check_recipient_risk, check_unusual_hour}

module _ (r : Signals) where
  -- A velocity check that returns adds one to the count of the account, and fires exactly if the
  -- account had at least three in the window.
  pub check_velocity-counts :
      (account_id : String) (s : r.Store) (o : Option FraudSignal)
      → (check_velocity r account_id s).0 ≡ ok o
      → let key = FraudKey.velocity account_id in
        (r.counter key (check_velocity r account_id s).1 ≡ suc (r.counter key s))
        × ((o ≢ none) ↔ (3 ≤ r.counter key s))
  unfolding check_velocity
  check_velocity-counts account_id s o h =
      let key = FraudKey.velocity account_id in
      elim (Option-cases (r.incr key s).0) [
        | inl failed ↦ ground arith
        | inr (n, replied) ↦
            ground
              (arith, r.incr-counter key s replied, r.expire-counter key key 60 (r.incr key s).1)
      ]

  -- A recipient check for a sender that the recipient already has in the window fires exactly if
  -- there are more than ten distinct senders, and leaves the senders as they are.
  pub check_recipient_risk-again :
      (to_account_id from_account_id : String) (s : r.Store) (o : Option FraudSignal)
      → (check_recipient_risk r to_account_id from_account_id s).0 ≡ ok o
      → has from_account_id (r.members (FraudKey.recipient to_account_id) s) ≡ true
      → let key = FraudKey.recipient to_account_id in
        ((o ≢ none) ↔ (10 < length (r.members key s)))
        × ((r.members key (check_recipient_risk r to_account_id from_account_id s).1)
            ≡ r.members key s)
  unfolding check_recipient_risk
  check_recipient_risk-again to_account_id from_account_id s o h m =
      let key = FraudKey.recipient to_account_id in
      let added = (r.sadd key from_account_id s).1 in
      let kept = (r.expire key 3600 added).1 in
      let same = r.expire-members key key 3600 added ∙ r.sadd-again key from_account_id s m in
      elim (Option-cases (r.sadd key from_account_id s).0) [
        | inl failed ↦ ground arith
        | inr (tt, stored) ↦ elim (Option-cases (r.scard key kept).0) [
          | inl failed ↦ ground arith
          | inr (n, replied) ↦
              let size = r.scard-members key kept replied in
              (
                ground (arith, size, ap length same),
                ground (arith, same, r.scard-others key key kept),
              )
        ]
      ]

  -- A recipient check for a new sender fires exactly if there were ten distinct senders or more.
  pub check_recipient_risk-new :
      (to_account_id from_account_id : String) (s : r.Store) (o : Option FraudSignal)
      → (check_recipient_risk r to_account_id from_account_id s).0 ≡ ok o
      → has from_account_id (r.members (FraudKey.recipient to_account_id) s) ≡ false
      → (o ≢ none) ↔ (10 ≤ length (r.members (FraudKey.recipient to_account_id) s))
  unfolding check_recipient_risk
  check_recipient_risk-new to_account_id from_account_id s o h m =
      let key = FraudKey.recipient to_account_id in
      let added = (r.sadd key from_account_id s).1 in
      let kept = (r.expire key 3600 added).1 in
      let same = r.expire-members key key 3600 added in
      elim (Option-cases (r.sadd key from_account_id s).0) [
        | inl failed ↦ ground arith
        | inr (tt, stored) ↦ elim (Option-cases (r.scard key kept).0) [
          | inl failed ↦ ground arith
          | inr (n, replied) ↦
              let size = r.scard-members key kept replied in
              ground (arith, size, ap length same, r.sadd-new key from_account_id s stored m)
        ]
      ]

-- The hour rule fires exactly from 01:00:00.000 to 05:59:59.999 in IST.
pub check_unusual_hour-window :
    (now : ℕ)
    → let time = (now + 19800000) % 86400000 in
      (check_unusual_hour now ≢ none) ↔ ((3600000 ≤ time) × (time < 21600000))
unfolding check_unusual_hour
check_unusual_hour-window now = ground arith
