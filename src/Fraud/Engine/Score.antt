-- ===== src/Fraud/Engine/Score.antt =====
-- What the score of the fraud engine says about the rules that fired.
use settlr.Prelude.{
  ℕ, ◌+◌, ◌*◌, ◌≤◌, ◌<◌, ◌≡◌, ◌↔◌, refl, ap, subst, Option, none, some, List, [], ◌∷◌, String, min,
  sum_by, length, arith,
}
use settlr.Errors.{Result, ok, err}
use settlr.Action.{Action, continue, pure}
use settlr.Database.{FraudAction, RuleName}
use settlr.Payment.{FraudSignal, FraudResult}
use settlr.Fraud.{Signals}
use settlr.Fraud.Rules.{
  velocity_signal, amount_signal, recipient_signal, check_velocity, check_amount_anomaly,
  check_unusual_hour, check_new_account, check_round_amount, check_recipient_risk,
}
use settlr.Fraud.Engine.{
  score_to_action, FraudInput, fired, zip_result, assess, all, run_fraud_engine,
}

-- The points of the six rules.
abbrev pub points : RuleName → ℕ
points RuleName.velocity_check = 25
points RuleName.amount_anomaly = 30
points RuleName.unusual_hour = 10
points RuleName.new_account = 15
points RuleName.round_amount = 5
points RuleName.recipient_risk = 20

-- A rule either does not fire or adds its points under its name.
abbrev pub Is : RuleName → Option FraudSignal → Type 0
Is rule none = Unit {0}
Is rule (some s) = (s.rule_name ≡ rule) × (s.score_added ≡ points rule)

abbrev pub Are : List RuleName → List (Option FraudSignal) → Type 0
Are [] [] = Unit {0}
Are [] (o ∷ os) = ⊥
Are (rule ∷ rules) [] = ⊥
Are (rule ∷ rules) (o ∷ os) = Is rule o × Are rules os

abbrev pub all_rules : List RuleName
all_rules =
    RuleName.velocity_check ∷ RuleName.amount_anomaly ∷ RuleName.unusual_hour ∷ RuleName.new_account
    ∷ RuleName.round_amount ∷ RuleName.recipient_risk ∷ []

abbrev score_sum : List (Option FraudSignal) → ℕ
score_sum os = sum_by (λ s. s.score_added) (fired os)

abbrev one : Option FraudSignal → ℕ
one none = 0
one (some s) = 1

fired-counts :
    (rule : RuleName) (o : Option FraudSignal) (os : List (Option FraudSignal))
    → Is rule o
    → (score_sum (o ∷ os) ≡ one o * points rule + score_sum os)
      × (length (fired (o ∷ os)) ≡ one o + length (fired os))
      × (one o ≤ 1)
fired-counts rule none os h = (omega arith, omega arith, omega arith)
fired-counts rule (some s) os h = (omega (arith, h.1), omega arith, omega arith)

-- The score bounds the number of rules from below.
counts :
    (os : List (Option FraudSignal))
    → Are all_rules os
    → let n = length (fired os) in
      let score = score_sum os in
      (n ≤ 6) × (score ≤ 105) × (30 ≤ score → 1 ≤ n) × (60 ≤ score → 3 ≤ n) × (80 ≤ score → 4 ≤ n)
counts [] h = elim h [ ]
counts (a ∷ []) h = elim h.1 [ ]
counts (a ∷ b ∷ []) h = elim h.1.1 [ ]
counts (a ∷ b ∷ c ∷ []) h = elim h.1.1.1 [ ]
counts (a ∷ b ∷ c ∷ d ∷ []) h = elim h.1.1.1.1 [ ]
counts (a ∷ b ∷ c ∷ d ∷ e ∷ []) h = elim h.1.1.1.1.1 [ ]
counts (a ∷ b ∷ c ∷ d ∷ e ∷ f ∷ (g ∷ gs)) h = elim h.1.1.1.1.1.1 [ ]
counts (a ∷ b ∷ c ∷ d ∷ e ∷ f ∷ []) h =
    let ra = fired-counts RuleName.velocity_check a (b ∷ c ∷ d ∷ e ∷ f ∷ []) h.0 in
    let rb = fired-counts RuleName.amount_anomaly b (c ∷ d ∷ e ∷ f ∷ []) h.1.0 in
    let rc = fired-counts RuleName.unusual_hour c (d ∷ e ∷ f ∷ []) h.1.1.0 in
    let rd = fired-counts RuleName.new_account d (e ∷ f ∷ []) h.1.1.1.0 in
    let re = fired-counts RuleName.round_amount e (f ∷ []) h.1.1.1.1.0 in
    let rf = fired-counts RuleName.recipient_risk f [] h.1.1.1.1.1.0 in
    (
      omega (arith, ra, rb, rc, rd, re, rf),
      omega (arith, ra, rb, rc, rd, re, rf),
      λ k. omega (arith, ra, rb, rc, rd, re, rf),
      λ k. omega (arith, ra, rb, rc, rd, re, rf),
      λ k. omega (arith, ra, rb, rc, rd, re, rf),
    )

points-fired :
    (rules : List RuleName) (os : List (Option FraudSignal))
    → Are rules os
    → score_sum os ≡ sum_by (λ s. points s.rule_name) (fired os)
points-fired [] [] h = refl
points-fired [] (o ∷ os) h = elim h [ ]
points-fired (rule ∷ rules) [] h = elim h [ ]
points-fired (rule ∷ rules) (none ∷ os) h = points-fired rules os h.1
points-fired (rule ∷ rules) (some s ∷ os) h =
    omega (arith, h.0.1, ap points h.0.0, points-fired rules os h.1)

-- The fewest rules that lead to an action.
abbrev pub least_rules : FraudAction → ℕ
least_rules FraudAction.approve = 0
least_rules FraudAction.review = 1
least_rules FraudAction.challenge = 3
least_rules FraudAction.decline = 4

abbrev pub Assessed : FraudResult → Type 0
Assessed fraud =
    let n = length fraud.signals in
    (fraud.score ≡ min (sum_by (λ s. points s.rule_name) fraud.signals) 100)
    × (n ≤ 6)
    × ((fraud.action ≡ FraudAction.approve) ↔ (fraud.score < 30))
    × (least_rules fraud.action ≤ n)

assess-Assessed : (os : List (Option FraudSignal)) → Are all_rules os → Assessed (assess os)
unfolding assess score_to_action
assess-Assessed os h =
    let c = counts os h in
    let e = points-fired all_rules os h in (cc (e), c.0, ground arith, ground (arith, c))

velocity-Is : (n : ℕ) → Is RuleName.velocity_check (velocity_signal n)
velocity-Is n = ground arith

amount-Is : (n : ℕ) (ns : List ℕ) → Is RuleName.amount_anomaly (amount_signal n ns)
amount-Is n ns = ground arith

recipient-Is : (n : ℕ) → Is RuleName.recipient_risk (recipient_signal n)
recipient-Is n = ground arith

hour-Is : (now : ℕ) → Is RuleName.unusual_hour (check_unusual_hour now)
unfolding check_unusual_hour
hour-Is now = ground arith

new-Is : (now created : ℕ) → Is RuleName.new_account (check_new_account now created)
unfolding check_new_account
new-Is now created = ground arith

round-Is : (amount : ℕ) → Is RuleName.round_amount (check_round_amount amount)
unfolding check_round_amount
round-Is amount = ground arith

all-Are :
    {S : Type 0} (rule : RuleName) (rules : List RuleName) (m : Action S (Option FraudSignal))
    (ms : List (Action S (Option FraudSignal)))
    → ((s : S) (o : Option FraudSignal) → (m s).0 ≡ ok o → Is rule o)
    → ((s : S) (os : List (Option FraudSignal)) → (all ms s).0 ≡ ok os → Are rules os)
    → (s : S) (os : List (Option FraudSignal)) → (all (m ∷ ms) s).0 ≡ ok os
    → Are (rule ∷ rules) os
all-Are {S} rule rules m ms h hs s = go (m s) (all ms (m s).1) (h s) (hs (m s).1)
  where
    go :
        (x : Result (Option FraudSignal) × S) (xs : Result (List (Option FraudSignal)) × S)
        → ((o : Option FraudSignal) → x.0 ≡ ok o → Is rule o)
        → ((os : List (Option FraudSignal)) → xs.0 ≡ ok os → Are rules os)
        → (os : List (Option FraudSignal)) → zip_result x.0 xs.0 ≡ ok os
        → Are (rule ∷ rules) os
    go (ok a, s) (ok as_, s') c d [] e = cc
    go (ok a, s) (ok as_, s') c d (o ∷ os) e = (c o cc, d os cc)
    go (ok a, s) (err x, s') c d os e = cc
    go (err x, s) (ok as_, s') c d os e = cc
    go (err x, s) (err x', s') c d os e = cc

all-none :
    {S : Type 0} (s : S) (os : List (Option FraudSignal)) → (all {S = S} [] s).0 ≡ ok os → Are [] os
all-none s [] h = tt
all-none s (o ∷ os) h = cc

ok-injective : {A : Type 0} (a b : A) → ok a ≡ ok b → a ≡ b
ok-injective a b e = cc

module _ (r : Signals) where
  velocity-ok :
      (a : String) (s : r.Store) (o : Option FraudSignal)
      → (check_velocity r a s).0 ≡ ok o
      → Is RuleName.velocity_check o
  unfolding check_velocity
  velocity-ok a s o h = ground arith

  amount-ok :
      (now : ℕ) (a : String) (n : ℕ) (s : r.Store) (o : Option FraudSignal)
      → (check_amount_anomaly r now a n s).0 ≡ ok o
      → Is RuleName.amount_anomaly o
  unfolding check_amount_anomaly
  amount-ok now a n s o h = ground arith

  recipient-ok :
      (a b : String) (s : r.Store) (o : Option FraudSignal)
      → (check_recipient_risk r a b s).0 ≡ ok o
      → Is RuleName.recipient_risk o
  unfolding check_recipient_risk
  recipient-ok a b s o h = ground arith

  same-ok :
      (rule : RuleName) (c : Option FraudSignal) (o : Option FraudSignal)
      → Is rule c
      → Result.ok c ≡ ok o
      → Is rule o
  same-ok rule c o h e = subst (Is rule) (ok-injective c o e) h

  Assessed-ok :
      (x : Result (List (Option FraudSignal)) × r.Store) (fraud : FraudResult)
      → ((os : List (Option FraudSignal)) → x.0 ≡ ok os → Are all_rules os)
      → (continue x (λ os. pure (assess os))).0 ≡ ok fraud
      → Assessed fraud
  Assessed-ok (ok os, s) fraud h e =
      subst Assessed (ok-injective (assess os) fraud e) (assess-Assessed os (h os refl))
  Assessed-ok (err x, s) fraud h e = cc

  -- When the engine returns, its score is the sum of the points of the rules that fired, capped at
  -- 100, at most six of them; the payment is approved exactly for a score under 30, a review takes
  -- at least one rule, a challenge at least three, and a decline at least four.
  pub run_fraud_engine-Assessed :
      (now : ℕ) (input : FraudInput) (s : r.Store) (fraud : FraudResult)
      → (run_fraud_engine r now input s).0 ≡ ok fraud
      → Assessed fraud
  unfolding run_fraud_engine
  run_fraud_engine-Assessed now input s fraud h =
      let m2 = check_amount_anomaly r now input.from_account_id input.amount in
      let m3 = pure (check_unusual_hour now) in
      let m4 = pure (check_new_account now input.account_created_at) in
      let m5 = pure (check_round_amount input.amount) in
      let m6 = check_recipient_risk r input.to_account_id input.from_account_id in
      let r6 = RuleName.recipient_risk ∷ [] in
      let r5 = RuleName.round_amount ∷ r6 in
      let r4 = RuleName.new_account ∷ r5 in
      let r3 = RuleName.unusual_hour ∷ r4 in
      let h6 =
        all-Are _ [] m6 [] (recipient-ok input.to_account_id input.from_account_id) all-none in
      let h5 = all-Are _ r6 m5 (m6 ∷ []) (λ s o e. same-ok _ _ o (round-Is input.amount) e) h6 in
      let h4 =
        all-Are _ r5 m4 (m5 ∷ m6 ∷ [])
          (λ s o e. same-ok _ _ o (new-Is now input.account_created_at) e) h5 in
      let h3 = all-Are _ r4 m3 (m4 ∷ m5 ∷ m6 ∷ []) (λ s o e. same-ok _ _ o (hour-Is now) e) h4 in
      let h2 =
        all-Are _ r3 m2 (m3 ∷ m4 ∷ m5 ∷ m6 ∷ []) (amount-ok now input.from_account_id input.amount)
          h3 in
      let h1 =
        all-Are _ (RuleName.amount_anomaly ∷ r3) (check_velocity r input.from_account_id)
          (m2 ∷ m3 ∷ m4 ∷ m5 ∷ m6 ∷ []) (velocity-ok input.from_account_id) h2 in
      Assessed-ok (all (check_velocity r input.from_account_id ∷ m2 ∷ m3 ∷ m4 ∷ m5 ∷ m6 ∷ []) s)
        fraud (h1 s) h
