-- ===== src/Gateway/Payments.antt =====
-- What the gateway's reply to a payment says about the tables of payment-service.
use settlr.Prelude.{
  ℕ, ◌<◌, ◌≤◌, ℤ, ◌≡◌, ◌⊎◌, inl, inr, refl, sym, ◌∙◌, ap, Bool, true, false, Option, none, some,
  String, eq_iff, if-both, if◌then◌else◌, arith,
}
use settlr.Errors.{ErrorCode, Result, ok, err}
use settlr.Database.{TransactionRow, Tables}
use settlr.Redis.RateLimit.{Decision, sliding_window_rate_limit}
use settlr.Payment.{PaymentParams, Platform}
use settlr.Payment.Initiate.{State}
use settlr.Payment.Initiate.Atomic.{Posts}
use settlr.Payment.Handler.{
  Numbers, RawAmount, PaymentBody, PaymentRequest, Reply, refusal, params_of, positive_amount,
  parse_amount_in_paise, present, or_inr, post_payments,
}
use settlr.Payment.Handler.Answers.{Pays, Reports, post_payments-Reports}
use settlr.Gateway.{
  Auth, Delivery, RawPayment, ClientRequest, Edge, auth_middleware, is_valid_amount, is_inr,
  validate_payment, forwarded, Edges, exchange, proxy_payment, text_of, with_key, with_body,
  with_user, payment_route, limited, rate_limit_key, post_api_payments,
}

-- A positive amount that the schema accepts is a whole number of paise up to its limit.
accepted-amount :
    (g : Edge) (n : Numbers) (raw : RawAmount n.Float) (amount : ℕ)
    → is_valid_amount g raw ≡ true
    → positive_amount (parse_amount_in_paise n raw) ≡ some amount
    → (raw ≡ RawAmount.integer (ℤ.pos amount)) × (amount ≤ 1000000000)
unfolding positive_amount parse_amount_in_paise
accepted-amount g n (RawAmount.text s) amount h k = cc
accepted-amount g n (RawAmount.integer (ℤ.pos m)) amount h k = ground arith
accepted-amount g n (RawAmount.integer (ℤ.negsuc m)) amount h k = cc
accepted-amount g n (RawAmount.fraction x) amount h k = cc
accepted-amount g n RawAmount.other amount h k = cc

validated-amount :
    (g : Edge) {F : Type 0} (raw : RawPayment F) (body : PaymentBody F)
    → validate_payment g raw ≡ some body
    → (body.amount ≡ raw.amount) × (is_valid_amount g raw.amount ≡ true)
unfolding validate_payment
validated-amount g raw body h = ground arith

validated-body :
    (g : Edge) {F : Type 0} (raw : RawPayment F) (body : PaymentBody F)
    → validate_payment g raw ≡ some body
    → (raw.from_account_id ≡ some body.from_account_id)
      × (raw.to_account_id ≡ some body.to_account_id)
unfolding validate_payment
validated-body g raw body h = ground arith

rupees : (g : Edge) (o : Option String) → is_inr g o ≡ true → or_inr (present o) ≡ "INR"
rupees g none h = cc
rupees g (some currency) h = rw ((eq_iff currency "INR").0 h) refl

checked-currency :
    (g : Edge) {F : Type 0} (raw : RawPayment F) (body : PaymentBody F)
    → validate_payment g raw ≡ some body
    → (body.currency ≡ raw.currency) × (is_inr g raw.currency ≡ true)
unfolding validate_payment
checked-currency g raw body h = ground arith

validated-currency :
    (g : Edge) {F : Type 0} (raw : RawPayment F) (body : PaymentBody F)
    → validate_payment g raw ≡ some body
    → or_inr (present body.currency) ≡ "INR"
validated-currency g raw body h =
    let c = checked-currency g raw body h in
    ap (λ o. or_inr (present o)) c.0 ∙ rupees g raw.currency c.1

validated-description :
    (g : Edge) {F : Type 0} (raw : RawPayment F) (body : PaymentBody F)
    → validate_payment g raw ≡ some body
    → body.description ≡ text_of g raw.description
unfolding validate_payment
validated-description g raw body h = ground arith

module _ (g : Edge) (p : Platform) (n : Numbers) (request : ClientRequest n.Float) where
  -- One transfer as the request asks for it: between its accounts, of its amount, between 1 and
  -- 1000000000 paise, in rupees, with its description and under its idempotency key; and the request
  -- carries the token of a user.
  abbrev pub Charges : Tables → TransactionRow → Tables → Type 0
  Charges t row t' =
      (q : PaymentParams) × (request.body.amount ≡ RawAmount.integer (ℤ.pos q.amount))
      × (0 < q.amount)
      × (q.amount ≤ 1000000000)
      × (request.body.from_account_id ≡ some q.from_account_id)
      × (request.body.to_account_id ≡ some q.to_account_id)
      × (q.currency ≡ "INR")
      × (q.description ≡ text_of g request.body.description)
      × ((user_id : String) × (auth_middleware g request.authorization ≡ Auth.user user_id))
      × (present request.idempotency_key ≡ some q.idempotency_key)
      × Posts p q t row t'

  -- What a reply of the gateway says.
  abbrev pub Tells : Tables → Reply → Tables → Type 0
  Tells t reply t' =
      if reply.success
      then ((reply.status ≡ 200) × (t' ≡ t))
        ⊎ ((row : TransactionRow) × (reply.status ≡ 201)
            × (reply.transaction ≡ some row)
            × Charges t row t')
      else (t' ≡ t)
      ⊎ (((reply.status ≡ 500) ⊎ (reply.status ≡ 502)) × (row : TransactionRow) × Charges t row t')

  module _ (user_id key : String) (body : PaymentBody n.Float)
      (known : auth_middleware g request.authorization ≡ Auth.user user_id)
      (keyed : present request.idempotency_key ≡ some key)
      (validated : validate_payment g request.body ≡ some body) where
    abbrev inner : PaymentRequest n.Float
    inner = record {
      x_user_id = some user_id;
      x_idempotency_key = key;
      trace_id = request.trace_id;
      body = body;
    }

    Pays-Charges :
        (t t' : Tables) (row : TransactionRow) → Pays p n inner t row t' → Charges t row t'
    Pays-Charges t t' row (u, amount, positive, identified, read, posts) =
        let v = validated-amount g request.body body validated in
        let a = accepted-amount g n body.amount amount (ap (is_valid_amount g) v.0 ∙ v.1) read in
        (
          params_of p n u inner amount,
          sym v.0 ∙ a.0,
          positive,
          a.1,
          (validated-body g request.body body validated).0,
          (validated-body g request.body body validated).1,
          validated-currency g request.body body validated,
          validated-description g request.body body validated,
          (user_id, known),
          keyed,
          posts,
        )

    abbrev Reported : Reply → Tables → Tables → Bool → Bool → Type 0
    Reported reply t t' success replayed =
        if success
        then (if replayed
            then (reply.status ≡ 200) × (t' ≡ t)
            else (row : TransactionRow) × (reply.status ≡ 201)
              × (reply.transaction ≡ some row)
              × Pays p n inner t row t')
        else (t' ≡ t)
        ⊎ ((reply.status ≡ 500) × (row : TransactionRow) × Pays p n inner t row t')

    forwarded-Tells :
        (reply : Reply) (t t' : Tables)
        → Reports p n inner t reply t'
        → Tells t (forwarded g reply) t'
    forwarded-Tells reply t t' h = by_success reply.success reply.replayed h
      where
        by_success :
            (success replayed : Bool)
            → Reported reply t t' success replayed
            → if success
              then ((reply.status ≡ 200) × (t' ≡ t))
                ⊎ ((row : TransactionRow) × (reply.status ≡ 201)
                    × (reply.transaction ≡ some row)
                    × Charges t row t')
              else (t' ≡ t)
              ⊎ (((reply.status ≡ 500) ⊎ (reply.status ≡ 502))
                  × (row : TransactionRow) × Charges t row t')
        by_success true true h = inl h
        by_success true false (row, status, found, pays) =
            inr (row, status, found, Pays-Charges t t' row pays)
        by_success false replayed (inl h) = inl h
        by_success false replayed (inr (status, row, pays)) =
            inr (inl status, row, Pays-Charges t t' row pays)

    abbrev unavailable : Reply
    unavailable = refusal 502 ErrorCode.service_unavailable none

    -- An answer that is lost leaves what the service did.
    lost-Tells :
        (reply : Reply) (t t' : Tables) → Reports p n inner t reply t' → Tells t unavailable t'
    lost-Tells reply t t' h = by_success reply.success reply.replayed h
      where
        by_success :
            (success replayed : Bool)
            → Reported reply t t' success replayed
            → Tells t unavailable t'
        by_success true true h = inl h.1
        by_success true false (row, status, found, pays) =
            inr (inr refl, row, Pays-Charges t t' row pays)
        by_success false replayed (inl h) = inl h
        by_success false replayed (inr (status, row, pays)) =
            inr (inr refl, row, Pays-Charges t t' row pays)

    proxied-Tells :
        (w : State p)
        → let out = proxy_payment g p n request user_id key body w in
          Tells w.tables out.0 out.1.tables
    unfolding proxy_payment
    proxied-Tells w = delivered request.delivery
      where
        delivered :
            (d : Delivery)
            → let out = exchange g p n d (post_payments p n inner w) w in
              Tells w.tables out.0 out.1.tables
        delivered Delivery.unreached = inl refl
        delivered Delivery.lost =
            lost-Tells (post_payments p n inner w).0 w.tables (post_payments p n inner w).1.tables
              (post_payments-Reports p n inner w)
        delivered Delivery.answered =
            forwarded-Tells (post_payments p n inner w).0 w.tables
              (post_payments p n inner w).1.tables (post_payments-Reports p n inner w)

  route-Tells :
      (w : State p) → let out = payment_route g p n request w in Tells w.tables out.0 out.1.tables
  unfolding payment_route
  route-Tells w = authenticated (auth_middleware g request.authorization) refl
    where
      keyed_body :
          (user_id : String) (body : PaymentBody n.Float) (key : Option String)
          → auth_middleware g request.authorization ≡ Auth.user user_id
          → validate_payment g request.body ≡ some body
          → present request.idempotency_key ≡ key
          → let out = with_key g p n request user_id body key w in Tells w.tables out.0 out.1.tables
      keyed_body user_id body none known validated e = inl refl
      keyed_body user_id body (some key) known validated e =
          proxied-Tells user_id key body known e validated w

      validated_body :
          (user_id : String) (body : Option (PaymentBody n.Float))
          → auth_middleware g request.authorization ≡ Auth.user user_id
          → validate_payment g request.body ≡ body
          → let out = with_body g p n request user_id body w in Tells w.tables out.0 out.1.tables
      validated_body user_id none known e = inl refl
      validated_body user_id (some body) known e =
          keyed_body user_id body (present request.idempotency_key) known e refl

      authenticated :
          (a : Auth)
          → auth_middleware g request.authorization ≡ a
          → let out = with_user g p n request a w in Tells w.tables out.0 out.1.tables
      authenticated (Auth.refused c) e = inl refl
      authenticated (Auth.user user_id) e =
          validated_body user_id (validate_payment g request.body) e refl

  -- A reply of the gateway to POST /api/v1/payments says what happened, whether or not the request was
  -- counted by the rate limit and whether or not the answer of payment-service arrived. A success has
  -- status 200 and unchanged tables, or status 201, and then one transfer was committed that returned
  -- the transaction of the reply, between the two accounts of the body, of its amount, between 1 and
  -- 1000000000 paise, in rupees, with its description and under the idempotency key of the request,
  -- which carries the token of a user. An error leaves the tables
  -- unchanged, unless its status is 500 or 502: then such a transfer may have been committed.
  pub post_api_payments-Tells :
      (w : Edges g p n)
      → let out = post_api_payments g p n request w in Tells w.inner.tables out.0 out.1.inner.tables
  unfolding post_api_payments
  post_api_payments-Tells w =
      decided
        (sliding_window_rate_limit g.limiter g.now
          (rate_limit_key g request.authorization request.ip) g.rate_limit_window_ms
          g.rate_limit_max_requests w.limits).0
    where
      decided :
          (d : Result Decision)
          → let out = limited g p n d request w.inner in Tells w.inner.tables out.0 out.1.tables
      decided (ok d) =
          if-both (λ (out : Reply × State p). Tells w.inner.tables out.0 out.1.tables) d.allowed
            (route-Tells w.inner) (inl refl)
      decided (err e) = route-Tells w.inner
