-- ===== src/Gateway.antt =====
-- services/api-gateway: the middlewares auth, rateLimit and validate, and POST /api/v1/payments of
-- routes/payment.routes.ts. The checks of JSON Web Tokens, the clock, the rules of zod for a uuid and
-- the network are parameters. Log lines, message texts and trace ids are left out.
pub mod Payments
use Prim.Native.Char.{code}
use settlr.Prelude.{
  ℕ, ℤ, Bool, true, false, ◌&&◌, not, Option, none, some, String, same_text, ltb, leb, ◌==◌,
  if◌then◌else◌,
}
use settlr.Errors.{ErrorCode, Result, ok, err}
use settlr.Redis.RateLimit.{Limiter, Decision, sliding_window_rate_limit}
use settlr.Payment.{Platform}
use settlr.Payment.Initiate.{State}
use settlr.Payment.Handler.{
  Numbers, RawAmount, PaymentBody, PaymentRequest, Reply, refusal, present, post_payments,
}

-- jwt.verify: the userId of the payload, or the error that it throws.
pub data Verified : Type 0 where
  valid : String → Verified
  expired invalid : Verified

-- What authMiddleware finds: the user of the request, or the code of its reply.
pub data Auth : Type 0 where
  user : String → Auth
  refused : ErrorCode → Auth

-- What becomes of a call to another service: it answers, its answer is lost, or it is not reached.
pub data Delivery : Type 0 where
  answered lost unreached : Delivery

-- A property of a JSON body that zod expects to be an optional text.
pub data OptionalText : Type 0 where
  absent : OptionalText
  present_text : String → OptionalText
  other_value : OptionalText

-- A body before validation; `none` stands for what is absent or no text.
pub record RawPayment (F : Type 0) : Type 0 where
  pub from_account_id : Option String
  pub to_account_id : Option String
  pub amount : RawAmount F
  pub currency : Option String
  pub description : OptionalText

-- A request of a client.
pub record ClientRequest (F : Type 0) : Type 0 where
  pub authorization : Option String
  pub idempotency_key : Option String
  pub ip : String
  pub trace_id : String
  pub body : RawPayment F
  pub delivery : Delivery

-- What the gateway runs on; the two numbers are those of the configuration.
pub record Edge : Type 1 where
  pub limiter : Limiter
  pub verify : String → Verified
  pub now : ℕ
  pub rate_limit_window_ms : ℕ
  pub rate_limit_max_requests : ℕ
  pub is_uuid : String → Bool
  pub text_length : String → ℕ

-- `header?.startsWith(prefix)` with `header.slice(prefix.length)`
abbrev pub strip_prefix : String → String → Option String
strip_prefix String.[] header = some header
strip_prefix (String.◌∷◌ c prefix) String.[] = none
strip_prefix (String.◌∷◌ c prefix) (String.◌∷◌ d header) =
    let rest = strip_prefix prefix header in if code c == code d then rest else none

abbrev pub bearer : Option String → Option String
bearer none = none
bearer (some header) = strip_prefix "Bearer " header

abbrev pub concat : String → String → String
concat String.[] t = t
concat (String.◌∷◌ c s) t = String.◌∷◌ c (concat s t)

-- The state of both services.
pub record GatewayState (L S : Type 0) : Type 0 where
  pub limits : L
  pub inner : S

module _ (g : Edge) where
  abbrev pub verified_key : String → Verified → String
  verified_key ip (Verified.valid user_id) =
      if same_text user_id "" then concat "ip:" ip else concat "user:" user_id
  verified_key ip Verified.expired = concat "ip:" ip
  verified_key ip Verified.invalid = concat "ip:" ip

  abbrev pub token_key : String → Option String → String
  token_key ip none = concat "ip:" ip
  token_key ip (some token) = verified_key ip (g.verify token)

  -- getRateLimitKey
  unfoldable pub rate_limit_key : Option String → String → String
  rate_limit_key authorization ip = token_key ip (bearer authorization)

  abbrev pub verified_user : Verified → Auth
  verified_user (Verified.valid user_id) = Auth.user user_id
  verified_user Verified.expired = Auth.refused ErrorCode.token_expired
  verified_user Verified.invalid = Auth.refused ErrorCode.unauthorized

  abbrev pub token_user : Option String → Auth
  token_user none = Auth.refused ErrorCode.unauthorized
  token_user (some token) = verified_user (g.verify token)

  -- authMiddleware
  unfoldable pub auth_middleware : Option String → Auth
  auth_middleware authorization = token_user (bearer authorization)

  abbrev pub valid_id : Option String → Option String
  valid_id none = none
  valid_id (some id) = if g.is_uuid id then some id else none

  -- z.number().int().positive().max(10_000_000_00)
  abbrev pub is_valid_amount : {F : Type 0} → RawAmount F → Bool
  is_valid_amount (RawAmount.integer (ℤ.pos n)) = ltb 0 n && leb n 1000000000
  is_valid_amount _ = false

  -- z.literal('INR')
  abbrev pub is_inr : Option String → Bool
  is_inr none = false
  is_inr (some currency) = same_text currency "INR"

  -- z.string().max(255).optional()
  abbrev pub is_valid_description : OptionalText → Bool
  is_valid_description OptionalText.absent = true
  is_valid_description (OptionalText.present_text text) = leb (g.text_length text) 255
  is_valid_description OptionalText.other_value = false

  abbrev pub text_of : OptionalText → Option String
  text_of (OptionalText.present_text text) = some text
  text_of _ = none

  abbrev parsed :
      {F : Type 0} → RawPayment F → Option String → Option String → Option (PaymentBody F)
  parsed raw (some from) (some to) =
      if is_valid_amount raw.amount && is_inr raw.currency && is_valid_description raw.description
      then some (record {
        from_account_id = from;
        to_account_id = to;
        amount = raw.amount;
        currency = raw.currency;
        description = text_of raw.description;
      })
      else none
  parsed raw _ _ = none

  -- validate(initiatePaymentSchema)
  unfoldable pub validate_payment : {F : Type 0} → RawPayment F → Option (PaymentBody F)
  validate_payment raw = parsed raw (valid_id raw.from_account_id) (valid_id raw.to_account_id)

  -- The reply of another service, as the proxy hands it on: its status and its body.
  abbrev pub forwarded : Reply → Reply
  forwarded reply = record reply { replayed = false }

  module _ (p : Platform) (n : Numbers) where
    abbrev pub Edges : Type 0
    Edges = GatewayState g.limiter.Store (State p)

    abbrev pub exchange : Delivery → Reply × State p → State p → Reply × State p
    exchange Delivery.answered (reply, s) w = (forwarded reply, s)
    exchange Delivery.lost (reply, s) w = (refusal 502 ErrorCode.service_unavailable none, s)
    exchange Delivery.unreached out w = (refusal 502 ErrorCode.service_unavailable none, w)

    -- proxy(req, res, 'POST', '/payments')
    unfoldable pub proxy_payment :
        ClientRequest n.Float → String → String → PaymentBody n.Float → State p → Reply × State p
    proxy_payment request user_id key body w =
        let inner : PaymentRequest n.Float = record {
          x_user_id = some user_id;
          x_idempotency_key = key;
          trace_id = request.trace_id;
          body = body;
        } in
        exchange request.delivery (post_payments p n inner w) w

    abbrev pub with_key :
        ClientRequest n.Float
        → String
        → PaymentBody n.Float
        → Option String
        → State p
        → Reply × State p
    with_key request user_id body none w = (refusal 400 ErrorCode.validation_error none, w)
    with_key request user_id body (some key) w = proxy_payment request user_id key body w

    abbrev pub with_body :
        ClientRequest n.Float → String → Option (PaymentBody n.Float) → State p → Reply × State p
    with_body request user_id none w = (refusal 400 ErrorCode.validation_error none, w)
    with_body request user_id (some body) w =
        with_key request user_id body (present request.idempotency_key) w

    abbrev pub with_user : ClientRequest n.Float → Auth → State p → Reply × State p
    with_user request (Auth.refused c) w = (refusal 401 c none, w)
    with_user request (Auth.user user_id) w =
        with_body request user_id (validate_payment request.body) w

    -- The router of /api/v1/payments, for a POST.
    unfoldable pub payment_route : ClientRequest n.Float → State p → Reply × State p
    payment_route request w = with_user request (auth_middleware request.authorization) w

    -- rateLimitMiddleware: a failure of Redis lets the request through.
    abbrev pub limited : Result Decision → ClientRequest n.Float → State p → Reply × State p
    limited (ok decision) request w =
        if decision.allowed
        then payment_route request w
        else (refusal 429 ErrorCode.rate_limit_exceeded none, w)
    limited (err e) request w = payment_route request w

    -- POST /api/v1/payments
    unfoldable pub post_api_payments : ClientRequest n.Float → Edges → Reply × Edges
    unfolding rate_limit_key
    post_api_payments request w =
        let (decision, limits) =
          sliding_window_rate_limit g.limiter g.now
            (rate_limit_key request.authorization request.ip) g.rate_limit_window_ms
            g.rate_limit_max_requests w.limits in
        let (reply, inner) = limited decision request w.inner in
        (reply, record { limits = limits; inner = inner })
