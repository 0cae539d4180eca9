-- ===== src/Payment/Attempts.antt =====
-- payment.service.ts, lines 139 to 251: the loop that tries a transaction up to three times. Between
-- two attempts the source sleeps; what other sessions do meanwhile is not modelled.
use settlr.Prelude.{
  ℕ, zero, suc, ◌≡◌, ◌⊎◌, inl, inr, refl, ◌∙◌, ◌<◌, Bool-cases, Bool, true, false, ◌&&◌, ltb, arith,
  if◌then◌else◌,
}
use settlr.Errors.{Error, app, fault, ErrorCode, code-discrete, Result, ok, err}
use settlr.Action.{Action}
use settlr.Payment.Transfer.{conflict}

-- error instanceof AppError && error.code === ErrorCodes.CONCURRENT_MODIFICATION
abbrev pub is_concurrent_modification : Error → Bool
is_concurrent_modification (fault f) = false
is_concurrent_modification (app e) = elim (code-discrete e.code ErrorCode.concurrent_modification) [
  | yes _ ↦ true
  | no _ ↦ false
]

module _ {S : Type 0} {A : Type 0} where
  -- The `catch` of one round: try again after a conflict while retries < 2, else throw.
  abbrev pub end_round : ℕ → Result A × S → Action S A → Result A × S
  end_round retries (ok a, s) again = (ok a, s)
  end_round retries (err e, s) again =
      if is_concurrent_modification e && ltb retries 2 then again s else (err e, s)

  -- `while (retries < 3)`, with 3 - retries rounds left; after the loop, 'Failed after retries.'
  unfoldable pub attempts : ℕ → ℕ → Action S A → Action S A
  attempts zero retries body s = (err conflict, s)
  attempts (suc rounds) retries body s =
      end_round retries (body s) (λ s'. attempts rounds (suc retries) body s')

  abbrev pub conflicts : Result A × S → Bool
  conflicts (ok a, s) = false
  conflicts (err e, s) = is_concurrent_modification e

  end_round_last : (o : Result A × S) (again : Action S A) → end_round 2 o again ≡ o
  end_round_last (ok a, s) again = refl
  end_round_last (err e, s) again = ground arith

  end_round_done :
      (n : ℕ) (o : Result A × S) (again : Action S A)
      → conflicts o ≡ false
      → end_round n o again ≡ o
  end_round_done n (ok a, s) again h = refl
  end_round_done n (err e, s) again h = ground arith

  end_round_again :
      (n : ℕ) (o : Result A × S) (again : Action S A)
      → n < 2
      → conflicts o ≡ true
      → end_round n o again ≡ again o.1
  end_round_again n (ok a, s) again l h = cc
  end_round_again n (err e, s) again l h = ground arith

  -- The loop runs the body at most three times, each run after the first follows a conflict, and it
  -- ends as its last run does: the first run that does not conflict, or the third.
  pub attempts-ends :
      (body : Action S A) (s : S)
      → let first = body s in
        let second = body first.1 in
        let third = body second.1 in
        let outcome = attempts 3 0 body s in
        ((conflicts first ≡ false) × (outcome ≡ first))
        ⊎ ((conflicts first ≡ true) × (conflicts second ≡ false) × (outcome ≡ second))
        ⊎ ((conflicts first ≡ true) × (conflicts second ≡ true) × (outcome ≡ third))
  unfolding attempts
  attempts-ends body s =
      let first = body s in
      let second = body first.1 in
      elim (Bool-cases (conflicts first)) [
        | inr done ↦ inl (done, end_round_done 0 first _ done)
        | inl again ↦ elim (Bool-cases (conflicts second)) [
          | inr done ↦ inr (
              inl (
                again,
                done,
                end_round_again 0 first _ (omega arith) again ∙ end_round_done 1 second _ done,
              ))
          | inl twice ↦ inr (
              inr (
                again,
                twice,
                end_round_again 0 first _ (omega arith) again
                    ∙ end_round_again 1 second _ (omega arith) twice
                    ∙ end_round_last (body second.1) _,
              ))
        ]
      ]
