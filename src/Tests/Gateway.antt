-- ===== src/Tests/Gateway.antt =====
-- A payment through the gateway, and straight to payment-service, on the platform of the tests.
use settlr.Prelude.{ℕ, ℤ, none, some, true, false}
use settlr.Payment.Handler.{Numbers, RawAmount, PaymentRequest, post_payments}
use settlr.Payment.Handler.Answers.{Reports, post_payments-Reports}
use settlr.Gateway.{Verified, Delivery, OptionalText, ClientRequest, Edge, Edges, post_api_payments}
use settlr.Gateway.Payments.{Tells, post_api_payments-Tells}
use settlr.Tests.Payment.{tables}
use settlr.Tests.Initiate.{recorded, world}
use settlr.Tests.Fraud.{one_window}

-- Numbers without a fraction, and one text that is a number.
abbrev pub numbers : Numbers
numbers = record {
  Float = ℕ;
  trim = λ raw. raw;
  includes_dot = λ raw. false;
  parse_float = λ raw. none;
  parse_int = λ raw. some (ℤ.pos 30);
  hundredfold = λ x. some (ℤ.pos x);
}

abbrev pub edge : Edge
edge = record {
  limiter = one_window;
  verify = λ token. Verified.valid "u";
  now = 7;
  rate_limit_window_ms = 60000;
  rate_limit_max_requests = 100;
  is_uuid = λ id. true;
  text_length = λ text. 0;
}

abbrev client_request : ClientRequest ℕ
client_request = record {
  authorization = some "Bearer token";
  idempotency_key = some "k";
  ip = "localhost";
  trace_id = "t";
  body = record {
    from_account_id = some "a";
    to_account_id = some "b";
    amount = RawAmount.integer (ℤ.pos 30);
    currency = some "INR";
    description = OptionalText.absent;
  };
  delivery = Delivery.answered;
}

abbrev pub edges : Edges edge recorded numbers
edges = record { limits = 0; inner = world }

post_api_payments-Tells_example :
    let out = post_api_payments edge recorded numbers client_request edges in
    Tells edge recorded numbers client_request tables out.0 out.1.inner.tables
post_api_payments-Tells_example = post_api_payments-Tells edge recorded numbers client_request edges

abbrev internal_request : PaymentRequest ℕ
internal_request = record {
  x_user_id = some "u";
  x_idempotency_key = "k";
  trace_id = "t";
  body = record {
    from_account_id = "a";
    to_account_id = "b";
    amount = RawAmount.text "30";
    currency = none;
    description = none;
  };
}

post_payments-Reports_example :
    let out = post_payments recorded numbers internal_request world in
    Reports recorded numbers internal_request tables out.0 out.1.tables
post_payments-Reports_example = post_payments-Reports recorded numbers internal_request world
