-- ===== src/Ui/ConfirmStep.antt =====
-- settlr-ui/src/components/send/ConfirmStep.tsx, the older last step of sending money, which no page
-- shows any more. What is rendered, and the texts of the errors, are left out.
use settlr.Prelude.{ℕ, Bool, Option, none, String, if◌then◌else◌}
use settlr.Payment.{Platform}
use settlr.Payment.Handler.{Numbers, Reply}
use settlr.Gateway.{Delivery, Edge, Edges, post_api_payments}
use settlr.Ui.Confirm.{Props, Press, request_of, shown_id}

pub data ConfirmState : Type 0 where
  review success failure : ConfirmState

pub record LastStep : Type 0 where
  pub screen_state : ConfirmState
  pub result_txn : Option String
  pub idempotency_key : String

-- A new component, with the key that it draws.
abbrev pub first_shown : String → LastStep
first_shown key = record {
  screen_state = ConfirmState.review;
  result_txn = none;
  idempotency_key = key;
}

abbrev pub answered_step : (ℕ → Bool) → Reply → LastStep → LastStep
answered_step resolves reply step =
    if resolves reply.status
    then record step {
      screen_state = ConfirmState.success;
      result_txn = shown_id reply.transaction;
    }
    else record step { screen_state = ConfirmState.failure }

-- The button "Try Again" of the failure screen, with the key that it draws.
unfoldable pub try_again : String → LastStep → LastStep
try_again key step = record step { screen_state = ConfirmState.review; idempotency_key = key }

module _ (g : Edge) (p : Platform) (n : Numbers) (resolves : ℕ → Bool) (props : Props) where
  abbrev pub returned :
      Delivery → Reply × Edges g p n → Edges g p n → LastStep → LastStep × Edges g p n
  returned Delivery.answered (reply, s) w step = (answered_step resolves reply step, s)
  returned Delivery.lost (reply, s) w step =
      (record step { screen_state = ConfirmState.failure }, s)
  returned Delivery.unreached out w step = (record step { screen_state = ConfirmState.failure }, w)

  -- handleConfirm
  unfoldable pub confirm : Press → LastStep → Edges g p n → LastStep × Edges g p n
  confirm press step w =
      returned press.to_gateway
        (post_api_payments g p n (request_of props step.idempotency_key press) w) w step
