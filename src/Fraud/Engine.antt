-- ===== src/Fraud/Engine.antt =====
-- fraud-service/src/engine/fraudEngine.ts: runFraudEngine. Promise.all starts the six rules together
-- and waits for them: here they run in the order of the list, every one of them, and the engine
-- throws if a rule did. Their commands are on three different keys.
pub mod Score
use settlr.Prelude.{ℕ, Option, none, some, List, [], ◌∷◌, String, min, ltb, if◌then◌else◌, sum_by}
use settlr.Errors.{Result, ok, err}
use settlr.Action.{Action, pure, ◌>>=◌}
use settlr.Database.{FraudAction}
use settlr.Payment.{FraudSignal, FraudResult}
use settlr.Fraud.{Signals}
use settlr.Fraud.Rules.{
  check_velocity, check_amount_anomaly, check_unusual_hour, check_new_account, check_round_amount,
  check_recipient_risk,
}

-- scoreToAction, with the thresholds of the configuration.
unfoldable pub score_to_action : ℕ → FraudAction
score_to_action score =
    if ltb score 30
    then FraudAction.approve
    else (if ltb score 60
        then FraudAction.review
        else (if ltb score 80 then FraudAction.challenge else FraudAction.decline))

-- IFraudInput; the trace id, which is only logged, is left out.
pub record FraudInput : Type 0 where
  pub from_account_id : String
  pub to_account_id : String
  pub amount : ℕ
  pub account_created_at : ℕ

abbrev pub zip_result {ℓ} : {A : Type ℓ} → Result A → Result (List A) → Result (List A)
zip_result (ok a) (ok as_) = ok (a ∷ as_)
zip_result (ok a) (err e) = err e
zip_result (err e) rest = err e

-- Promise.all
abbrev pub all {ℓ} : {S : Type 0} {A : Type ℓ} → List (Action S A) → Action S (List A)
all [] s = (ok [], s)
all (m ∷ ms) s = let first = m s in let rest = all ms first.1 in (zip_result first.0 rest.0, rest.1)

-- results.filter(s => s !== null)
abbrev pub fired {ℓ} : {A : Type ℓ} → List (Option A) → List A
fired [] = []
fired (none ∷ os) = fired os
fired (some a ∷ os) = a ∷ fired os

-- The score and the action of the signals that fired.
unfoldable pub assess : List (Option FraudSignal) → FraudResult
unfolding score_to_action
assess results =
    let signals = fired results in
    let capped_score = min (sum_by (λ s. s.score_added) signals) 100 in
    record { score = capped_score; action = score_to_action capped_score; signals = signals }

-- runFraudEngine
unfoldable pub run_fraud_engine : (r : Signals) → ℕ → FraudInput → Action r.Store FraudResult
run_fraud_engine r now input = do
  results ← all (
      check_velocity r input.from_account_id
      ∷ check_amount_anomaly r now input.from_account_id input.amount
      ∷ pure (check_unusual_hour now)
      ∷ pure (check_new_account now input.account_created_at)
      ∷ pure (check_round_amount input.amount)
      ∷ check_recipient_risk r input.to_account_id input.from_account_id
      ∷ [])
  pure (assess results)
