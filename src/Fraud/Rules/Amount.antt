-- ===== src/Fraud/Rules/Amount.antt =====
-- The amount rule: the amount that is checked is one of those that the average is taken over.
use settlr.Prelude.{
  ℕ, zero, suc, ◌-◌, ◌*◌, ◌≤◌, ◌<◌, ◌≡◌, ◌≢◌, ap, subst, ◌∙◌, inl, inr, not, ◌==◌, Option, none,
  Option-cases, List, [], ◌∷◌, ◌++◌, String, length, drop, keep, sum_by, length-append, length-drop,
  arith,
}
use native.Mathlib.Nat.{mul-le-mul_left}
use settlr.Errors.{ok}
use settlr.Payment.{FraudSignal}
use settlr.Fraud.{FraudKey, Signals}
use settlr.Fraud.Rules.{amount_signal, check_amount_anomaly}

abbrev total : List ℕ → ℕ
total ns = sum_by (λ n. n) ns

last-total : (k : ℕ) (ns : List ℕ) (a : ℕ) → k ≤ length ns → a ≤ total (drop k (ns ++ (a ∷ [])))
last-total zero [] a h = omega arith
last-total zero (n ∷ ns) a h = omega (arith, last-total zero ns a (omega arith))
last-total (suc k) [] a h = omega arith
last-total (suc k) (n ∷ ns) a h = last-total k ns a (omega arith)

few : (a n : ℕ) → n ≤ 5 → a * n ≤ a * 5
few a n h = mul-le-mul_left a h

-- An amount over five times an average that it is part of is part of six amounts or more.
fired-many : (a : ℕ) (ns : List ℕ) → a ≤ total ns → amount_signal a ns ≢ none → 6 ≤ length ns
fired-many a ns h fires = ground (arith, few a (length ns))

kept-many :
    (a : ℕ) (ns : List ℕ)
    → amount_signal a (drop (suc (length (ns ++ (a ∷ []))) - 21) (ns ++ (a ∷ []))) ≢ none
    → 5 ≤ length ns
kept-many a ns fires =
    let size = length-append ns (a ∷ []) in
    let k = suc (length (ns ++ (a ∷ []))) - 21 in
    omega (
      arith,
      size,
      length-drop k (ns ++ (a ∷ [])),
      fired-many a (drop k (ns ++ (a ∷ []))) (last-total k ns a (omega (arith, size))) fires,
    )

-- The amount rule, run later than what the account has in the sorted set, fires only if the set held
-- at least five amounts other than this one; the guard of the source asks for two.
pub check_amount_anomaly-needs :
    (r : Signals) (now : ℕ) (account_id : String) (amount : ℕ) (s : r.Store)
    (o : Option FraudSignal)
    → (check_amount_anomaly r now account_id amount s).0 ≡ ok o
    → r.latest (FraudKey.amounts account_id) s < now
    → o ≢ none
    → 5 ≤ length (keep (λ x. not (x == amount)) (r.range (FraudKey.amounts account_id) s))
unfolding check_amount_anomaly
check_amount_anomaly-needs r now account_id amount s o h later fires =
    let key = FraudKey.amounts account_id in
    let others = keep (λ x. not (x == amount)) (r.range key s) in
    let added = (r.zadd key now amount s).1 in
    let trimmed = (r.zremrangebyrank key 0 21 added).1 in
    let renewed = (r.expire key 2592000 trimmed).1 in
    elim (Option-cases (r.zadd key now amount s).0) [
      | inl failed ↦ ground arith
      | inr (tt, stored) ↦ elim (Option-cases (r.zremrangebyrank key 0 21 added).0) [
        | inl failed ↦ ground arith
        | inr (tt, cut) ↦ elim (Option-cases (r.zrange key renewed).0) [
          | inl failed ↦ ground arith
          | inr (amounts, replied) ↦
              let all = r.zadd-latest key now amount s stored later in
              let left = r.zremrangebyrank-range key 21 added cut in
              let read =
                r.zrange-range key renewed replied
                ∙ r.expire-range key key 2592000 trimmed
                ∙ left
                ∙ ap (λ ns. drop (suc (length ns) - 21) ns) all in
              kept-many amount others
                (subst (λ ns. amount_signal amount ns ≢ none) read (ground arith))
        ]
      ]
    ]
