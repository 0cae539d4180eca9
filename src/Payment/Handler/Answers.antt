-- ===== src/Payment/Handler/Answers.antt =====
-- What a reply to POST /payments says about the tables.
use settlr.Prelude.{
  ℕ, ◌<◌, ℤ, ◌⊎◌, ◌≡◌, refl, Bool, true, false, Option, none, some, String, inl, inr, ◌==◌,
  if◌then◌else◌, arith,
}
use settlr.Errors.{ErrorCode, Error, app, fault, Fault, Result, ok, err}
use settlr.Database.{TransactionRow, Tables}
use settlr.Payment.{PaymentParams, FraudResult, PaymentResult, Platform}
use settlr.Payment.Initiate.{State, complete, initiate_payment}
use settlr.Payment.Initiate.Atomic.{complete-ends, Posts, Ends}
use settlr.Payment.Initiate.Outcome.{initiate_payment-Ends}
use settlr.Payment.Initiate.Returned.{Gives, initiate_payment-Gives}
use settlr.Payment.Handler.{
  Numbers, PaymentRequest, Reply, refusal, error_reply, params_of, reply_of, pay, positive_amount,
  parse_amount_in_paise, initiate_payment_handler, authorised, post_payments, present,
}

module _ (p : Platform) (q : PaymentParams) where
  abbrev IsCreated : PaymentResult → p.redis.Store → Type 0
  IsCreated r s = r.status_code ≡ 201

  completed-IsCreated :
      (fraud : FraudResult) (t : TransactionRow) (w : State p)
      → Gives p q IsCreated (complete p q fraud t w)
  completed-IsCreated fraud t w = go (complete p q fraud t w) (complete-ends p q fraud t w).1
    where
      go :
          (o : Result PaymentResult × State p)
          → (o.0 ≡ ok (record { transaction = t; from_cache = false; status_code = 201 }))
            ⊎ (o.0 ≡ err (fault Fault.redis_error))
          → Gives p q IsCreated o
      go (ok r, s) (inl e) = cc
      go (ok r, s) (inr e) = cc
      go (err x, s) h = tt

  fresh-IsCreated :
      (w : State p) (r : PaymentResult)
      → (initiate_payment p q w).0 ≡ ok r
      → r.from_cache ≡ false
      → r.status_code ≡ 201
  fresh-IsCreated = initiate_payment-Gives p q IsCreated completed-IsCreated λ a b r s h. h

positive_amount-positive : (a : Option ℤ) (m : ℕ) → positive_amount a ≡ some m → 0 < m
unfolding positive_amount
positive_amount-positive none m h = cc
positive_amount-positive (some (ℤ.pos k)) m h = ground arith
positive_amount-positive (some (ℤ.negsuc k)) m h = cc

module _ (p : Platform) (n : Numbers) (request : PaymentRequest n.Float) where
  -- The amount of the request, which is not 0, was transferred once, for the user that is named.
  abbrev pub Pays : Tables → TransactionRow → Tables → Type 0
  Pays t row t' =
      (user_id : String) × (amount : ℕ) × (0 < amount)
      × (present request.x_user_id ≡ some user_id)
      × (positive_amount (parse_amount_in_paise n request.body.amount) ≡ some amount)
      × Posts p (params_of p n user_id request amount) t row t'

  -- What a reply says.
  abbrev pub Reports : Tables → Reply → Tables → Type 0
  Reports t reply t' =
      if reply.success
      then (if reply.replayed
          then (reply.status ≡ 200) × (t' ≡ t)
          else (row : TransactionRow) × (reply.status ≡ 201)
            × (reply.transaction ≡ some row)
            × Pays t row t')
      else (t' ≡ t)
      ⊎ ((reply.status ≡ 500) × (row : TransactionRow) × Pays t row t')

  module _ (user_id : String) (amount : ℕ) (w : State p)
      (read : positive_amount (parse_amount_in_paise n request.body.amount) ≡ some amount)
      (positive : 0 < amount) (identified : present request.x_user_id ≡ some user_id) where
    abbrev q : PaymentParams
    q = params_of p n user_id request amount

    error-Reports :
        (e : Error) (t t' : Tables) → Ends p q t (err e) t' → Reports t (error_reply e) t'
    error-Reports (app e) t t' h = refused e.is_operational
      where
        refused :
            (b : Bool)
            → Reports t
                (if b
                  then refusal e.status_code e.code e.fraud_score
                  else refusal 500 ErrorCode.internal_error none)
                t'
        refused true = inl h
        refused false = inl h
    error-Reports (fault e) t t' (inl h) = inl h
    error-Reports (fault e) t t' (inr (_, row, h)) =
        inr (refl, row, (user_id, amount, positive, identified, read, h))

    result-Reports :
        (r : Result PaymentResult) (t t' : Tables)
        → Ends p q t r t'
        → ((x : PaymentResult) → r ≡ ok x → x.from_cache ≡ false → x.status_code ≡ 201)
        → Reports t (reply_of p n r) t'
    result-Reports (err e) t t' h c = error-Reports e t t' h
    result-Reports (ok r) t t' h c = answered r.from_cache refl h
      where
        answered :
            (b : Bool)
            → r.from_cache ≡ b
            → (if b then t' ≡ t else Posts p q t r.transaction t')
            → if b
              then ((if b then 200 else if r.status_code == 0 then 201 else r.status_code) ≡ 200)
                × (t' ≡ t)
              else (row : TransactionRow) × ((if b
                    then 200
                    else if r.status_code == 0
                    then 201
                    else r.status_code)
                  ≡ 201)
                × (Option.some r.transaction ≡ some row)
                × Pays t row t'
        answered true e h = (refl, h)
        answered false e h =
            let created = c r refl e in
            (
              r.transaction,
              ground (arith, created),
              refl,
              (user_id, amount, positive, identified, read, h),
            )

  handled-Reports :
      (user_id : String) (w : State p)
      → present request.x_user_id ≡ some user_id
      → let out = initiate_payment_handler p n user_id request w in
        Reports w.tables out.0 out.1.tables
  unfolding initiate_payment_handler
  handled-Reports user_id w identified =
      paid (positive_amount (parse_amount_in_paise n request.body.amount)) refl
    where
      paid :
          (a : Option ℕ)
          → positive_amount (parse_amount_in_paise n request.body.amount) ≡ a
          → let out = pay p n user_id request a w in Reports w.tables out.0 out.1.tables
      paid none e = inl refl
      paid (some amount) e =
          let q = params_of p n user_id request amount in
          result-Reports user_id amount w e
            (positive_amount-positive (parse_amount_in_paise n request.body.amount) amount e)
            identified (initiate_payment p q w).0 w.tables (initiate_payment p q w).1.tables
            (initiate_payment-Ends p q w) (fresh-IsCreated p q w)

  -- A reply to POST /payments says what happened. If it reports success, then either it is marked as a
  -- replay, has status 200, and the tables are unchanged, or it has status 201 and one transfer of the
  -- amount of the request, which is not 0, was committed and returned the transaction of the reply. If
  -- it reports an error, then the tables are unchanged, or its status is 500 and one transfer of the
  -- amount of the request was committed all the same.
  pub post_payments-Reports :
      (w : State p) → let out = post_payments p n request w in Reports w.tables out.0 out.1.tables
  unfolding post_payments
  post_payments-Reports w = go (present request.x_user_id) refl
    where
      go :
          (user_id : Option String)
          → present request.x_user_id ≡ user_id
          → let out = authorised p n request user_id w in Reports w.tables out.0 out.1.tables
      go none e = inl refl
      go (some user_id) e = handled-Reports user_id w e
