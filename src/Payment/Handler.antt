-- ===== src/Payment/Handler.antt =====
-- services/payment-service: POST /payments, with middleware/internalAuth.middleware.ts, the handler
-- initiatePaymentHandler and the error handler of index.ts. Message texts and the trace id of a reply
-- are left out. The JavaScript functions on numbers and texts are parameters.
pub mod Answers
use settlr.Prelude.{
  ℕ, suc, ℤ, Bool, true, false, Option, none, some, String, same_text, ◌==◌, if◌then◌else◌,
}
use settlr.Errors.{ErrorCode, AppError, Error, app, fault, Result, ok, err}
use settlr.Action.{Action}
use settlr.Database.{TransactionRow}
use settlr.Payment.{PaymentParams, PaymentResult, Platform}
use settlr.Payment.Initiate.{State, initiate_payment}

-- trim, includes('.'), parseFloat and parseInt, which are `none` where the number is not finite, and
-- Math.round(x * 100).
pub record Numbers : Type 1 where
  pub Float : Type 0
  pub trim : String → String
  pub includes_dot : String → Bool
  pub parse_float : String → Option Float
  pub parse_int : String → Option ℤ
  pub hundredfold : Float → Option ℤ

-- The `amount` of a body: a text, a finite number with or without a fraction, or something else.
pub data RawAmount (F : Type 0) : Type 0 where
  text : String → RawAmount F
  integer : ℤ → RawAmount F
  fraction : F → RawAmount F
  other : RawAmount F

-- The parts of a request that are read.
pub record PaymentBody (F : Type 0) : Type 0 where
  pub from_account_id : String
  pub to_account_id : String
  pub amount : RawAmount F
  pub currency : Option String
  pub description : Option String

pub record PaymentRequest (F : Type 0) : Type 0 where
  pub x_user_id : Option String
  pub x_idempotency_key : String
  pub trace_id : String
  pub body : PaymentBody F

-- A reply: its status, whether the header X-Idempotency-Replayed is set, and its body.
pub record Reply : Type 0 where
  pub status : ℕ
  pub success : Bool
  pub replayed : Bool
  pub transaction : Option TransactionRow
  pub description : Option String
  pub error : Option ErrorCode
  pub fraud_score : Option ℕ

abbrev pub refusal : ℕ → ErrorCode → Option ℕ → Reply
refusal status code fraud_score = record {
  status = status;
  success = false;
  replayed = false;
  transaction = none;
  description = none;
  error = some code;
  fraud_score = fraud_score;
}

-- The global error handler.
abbrev pub error_reply : Error → Reply
error_reply (app e) =
    if e.is_operational
    then refusal e.status_code e.code e.fraud_score
    else refusal 500 ErrorCode.internal_error none
error_reply (fault e) = refusal 500 ErrorCode.internal_error none

abbrev pub present : Option String → Option String
present none = none
present (some value) = if same_text value "" then none else some value

abbrev pub or_inr : Option String → String
or_inr none = "INR"
or_inr (some currency) = currency

abbrev pub hundredfold_of : (n : Numbers) → Option n.Float → Option ℤ
hundredfold_of n none = none
hundredfold_of n (some rupees) = n.hundredfold rupees

-- parseAmountInPaise
unfoldable pub parse_amount_in_paise : (n : Numbers) → RawAmount n.Float → Option ℤ
parse_amount_in_paise n (RawAmount.text raw) =
    let trimmed = n.trim raw in
    if same_text trimmed ""
    then none
    else if n.includes_dot trimmed
    then hundredfold_of n (n.parse_float trimmed)
    else n.parse_int trimmed
parse_amount_in_paise n (RawAmount.integer amount) = some amount
parse_amount_in_paise n (RawAmount.fraction amount) = n.hundredfold amount
parse_amount_in_paise n RawAmount.other = none

-- The amount that is paid: null, zero and negative amounts are refused.
unfoldable pub positive_amount : Option ℤ → Option ℕ
positive_amount none = none
positive_amount (some (ℤ.negsuc m)) = none
positive_amount (some (ℤ.pos m)) = if m == 0 then none else some m

module _ (p : Platform) (n : Numbers) where
  abbrev pub params_of : String → PaymentRequest n.Float → ℕ → PaymentParams
  params_of user_id request amount = record {
    idempotency_key = request.x_idempotency_key;
    from_account_id = request.body.from_account_id;
    to_account_id = request.body.to_account_id;
    amount = amount;
    currency = or_inr (present request.body.currency);
    description = request.body.description;
    user_id = user_id;
    trace_id = request.trace_id;
  }

  -- `result.fromCache ? 200 : result.statusCode || 201`
  abbrev pub reply_status : PaymentResult → ℕ
  reply_status r = if r.from_cache then 200 else if r.status_code == 0 then 201 else r.status_code

  abbrev pub reply_of : Result PaymentResult → Reply
  reply_of (ok r) = record {
    status = reply_status r;
    success = true;
    replayed = r.from_cache;
    transaction = some r.transaction;
    description = r.transaction.metadata;
    error = none;
    fraud_score = none;
  }
  reply_of (err e) = error_reply e

  abbrev pub pay : String → PaymentRequest n.Float → Option ℕ → State p → Reply × State p
  pay user_id request none w = (refusal 400 ErrorCode.invalid_amount none, w)
  pay user_id request (some amount) w =
      let (result, s) = initiate_payment p (params_of user_id request amount) w in
      (reply_of result, s)

  -- initiatePaymentHandler, with the error handler that `next(err)` calls.
  unfoldable pub initiate_payment_handler :
      String → PaymentRequest n.Float → State p → Reply × State p
  initiate_payment_handler user_id request w =
      pay user_id request (positive_amount (parse_amount_in_paise n request.body.amount)) w

  abbrev pub authorised : PaymentRequest n.Float → Option String → State p → Reply × State p
  authorised request none w = (refusal 401 ErrorCode.unauthorized none, w)
  authorised request (some user_id) w = initiate_payment_handler user_id request w

  -- POST /payments: internalAuth, then the handler.
  unfoldable pub post_payments : PaymentRequest n.Float → State p → Reply × State p
  post_payments request w = authorised request (present request.x_user_id) w
