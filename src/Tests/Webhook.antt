-- ===== src/Tests/Webhook.antt =====
-- One endpoint that answers 500, then 200, and the theorems on deliveries at it.
use settlr.Prelude.{
  false, ℕ, ◌≤◌, refl, true, List, [], ◌∷◌, Option, none, some, if◌then◌else◌, ltb, arith,
}
use settlr.Webhook.{DeliveryStatus, EndpointRow, DeliveryRow, Services, Hooks}
use settlr.Webhook.Dispatcher.Steps.{AreSound}
use settlr.Webhook.RetryWorker.Lifecycle.{Call, serve, serve-AreSound}
use settlr.Webhook.RetryWorker.Posts.{posts_to}
use settlr.Webhook.RetryWorker.Posts.Bound.{serve-posts}

abbrev services : (ℕ → Option ℕ) → Services
services reply = record {
  sign = λ secret payload. "sha256=0";
  random_secret = λ n. "whsec_0";
  random_uuid = λ n. if ltb n 1 then "d0" else "d1";
  reserialized = λ text. text;
  answered = λ n. true;
  applied = λ n. false;
  fetch = λ n post. reply n;
  takes = λ event. true;
}

abbrev recovering : ℕ → Option ℕ
recovering n = if ltb n 1 then some 500 else some 200

abbrev down : ℕ → Option ℕ
down n = none

abbrev endpoint : EndpointRow
endpoint = record {
  id = "e";
  user_id = "u";
  url = "https://merchant.example";
  secret = "whsec_0";
  events = "payment.completed" ∷ [];
  is_active = true;
  created_at = 0;
}

abbrev delivery : ℕ → DeliveryRow
delivery attempt = record {
  id = "d";
  endpoint_id = "e";
  transaction_id = none;
  event_type = "payment.completed";
  payload = "{}";
  status = DeliveryStatus.retrying;
  attempt_number = attempt;
  response_code = none;
  next_retry_at = some 5;
  delivered_at = none;
  created_at = 0;
}

abbrev hooks : List DeliveryRow → Hooks
hooks rows = record {
  endpoints = endpoint ∷ [];
  deliveries = rows;
  draws = 0;
  statements = 0;
  posted = [];
  outbox = record { sent = []; drawn = 0 };
}

-- An event, a poll that comes too early for its retry, and one that does not.
abbrev calls : List Call
calls =
    Call.dispatched 1000 none "payment.completed" "{}" ∷ Call.polled 11000 ∷ Call.polled 31000 ∷ []

serve-AreSound_example :
    AreSound (serve (services recovering) calls (hooks (delivery 4 ∷ []))).deliveries
serve-AreSound_example =
    serve-AreSound (services recovering) calls (hooks (delivery 4 ∷ [])) (λ n h. refl)
      ((tt, tt), ((omega arith, omega arith), tt))

serve-posts_example : posts_to "d0" (serve (services down) calls (hooks [])).posted ≤ 5
serve-posts_example = serve-posts (services down) calls (hooks []) (λ n. refl) refl refl "d0"
