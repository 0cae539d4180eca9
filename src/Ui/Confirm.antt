-- ===== src/Ui/Confirm.antt =====
-- settlr-ui/src/components/sendmoney/ReviewAndConfirm.tsx, with sendMoney of api/payment.api.ts and the
-- two interceptors of api/client.ts, in front of the gateway. What is rendered is left out; the
-- buttons are presses, one after the other: while a request is pending they are disabled or absent.
pub mod Once
use settlr.Prelude.{
  ℕ, ℤ, Bool, true, false, ◌&&◌, Option, none, some, List, [], ◌∷◌, String, same_text, leb, ◌==◌,
  if◌then◌else◌,
}
use settlr.Errors.{ErrorCode}
use settlr.Database.{TransactionRow}
use settlr.Payment.{Platform}
use settlr.Payment.Handler.{Numbers, RawAmount, Reply}
use settlr.Gateway.{
  Delivery, OptionalText, RawPayment, ClientRequest, Edge, Edges, concat, post_api_payments,
}

pub data Status : Type 0 where
  review success error : Status

-- ReviewAndConfirmProps, without what is only shown
pub record Props : Type 0 where
  pub recipient_id : String
  pub amount_paise : ℕ
  pub purpose : String
  pub sender_account_number : String

-- The state of the component; the key is drawn when it mounts.
pub record Screen : Type 0 where
  pub status : Status
  pub error_message : String
  pub success_transaction_id : Option String
  pub idempotency_key : String

-- crypto.randomUUID() gave the key.
abbrev pub new_screen : String → Screen
new_screen key = record {
  status = Status.review;
  error_message = "";
  success_transaction_id = none;
  idempotency_key = key;
}

-- getErrorMessage; `none` is a failure without a code.
abbrev pub get_error_message : Option ErrorCode → String
get_error_message (some ErrorCode.insufficient_balance) =
    "Your account balance is too low for this transfer"
get_error_message (some ErrorCode.fraud_blocked) =
    "This transaction was blocked by our security system"
get_error_message (some ErrorCode.account_locked) = "Account is busy, please try again in a moment"
get_error_message (some ErrorCode.recipient_not_found) = "Recipient account not found"
get_error_message (some ErrorCode.account_not_found) = "Account not found"
get_error_message (some ErrorCode.account_frozen) = "Your account has been frozen"
get_error_message _ = "Something went wrong, please try again"

-- A press of a button that confirms: what the request finds on its way. The first delivery is that of
-- the browser's request, the second that of the gateway's.
pub record Press : Type 0 where
  pub access_token : Option String
  pub ip : String
  pub trace_id : String
  pub to_gateway : Delivery
  pub to_service : Delivery

-- The request interceptor
abbrev pub bearer_header : Option String → Option String
bearer_header none = none
bearer_header (some token) = if same_text token "" then none else some (concat "Bearer " token)

-- `purpose || undefined`
abbrev pub optional_purpose : String → OptionalText
optional_purpose purpose =
    if same_text purpose "" then OptionalText.absent else OptionalText.present_text purpose

-- sendMoney: the key in its header, the other parameters in the body.
unfoldable pub request_of : {F : Type 0} → Props → String → Press → ClientRequest F
request_of props key press = record {
  authorization = bearer_header press.access_token;
  idempotency_key = some key;
  ip = press.ip;
  trace_id = press.trace_id;
  body = record {
    from_account_id = some props.sender_account_number;
    to_account_id = some props.recipient_id;
    amount = RawAmount.integer (ℤ.pos props.amount_paise);
    currency = some "INR";
    description = optional_purpose props.purpose;
  };
  delivery = press.to_service;
}

abbrev pub shown_id : Option TransactionRow → Option String
shown_id none = none
shown_id (some row) = some row.id

abbrev pub failing : Option ErrorCode → Screen → Screen
failing code screen = record screen {
  status = Status.error;
  error_message = get_error_message code;
}

-- What `handleConfirm` makes of the reply.
abbrev pub resolved : (ℕ → Bool) → Reply → Screen → Screen
resolved resolves reply screen =
    if resolves reply.status
    then record screen {
      status = Status.success;
      error_message = "";
      success_transaction_id = shown_id reply.transaction;
    }
    else failing reply.error screen

-- The statuses for which a promise of axios resolves are a parameter.
module _ (g : Edge) (p : Platform) (n : Numbers) (resolves : ℕ → Bool) (props : Props) where
  abbrev pub arrived : Delivery → Reply × Edges g p n → Edges g p n → Screen → Screen × Edges g p n
  arrived Delivery.answered (reply, s) w screen = (resolved resolves reply screen, s)
  arrived Delivery.lost (reply, s) w screen = (failing none screen, s)
  arrived Delivery.unreached out w screen = (failing none screen, w)

  -- handleConfirm
  unfoldable pub handle_confirm : Press → Screen → Edges g p n → Screen × Edges g p n
  handle_confirm press screen w =
      arrived press.to_gateway
        (post_api_payments g p n (request_of props screen.idempotency_key press) w) w screen

  -- The success screen has no button.
  abbrev pub pressed : Press → Screen → Edges g p n → Screen × Edges g p n
  pressed press screen w = elim screen.status [
    | Status.review ↦ handle_confirm press screen w
    | Status.error ↦ handle_confirm press screen w
    | Status.success ↦ (screen, w)
  ]

  -- "Confirm & Send" and then "Try Again", as often as the user presses them.
  unfoldable pub press_all : List Press → Screen → Edges g p n → Screen × Edges g p n
  press_all [] screen w = (screen, w)
  press_all (press ∷ presses) screen w =
      let (screen', w') = pressed press screen w in press_all presses screen' w'
