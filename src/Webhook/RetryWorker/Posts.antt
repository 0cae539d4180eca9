-- ===== src/Webhook/RetryWorker/Posts.antt =====
-- How many POSTs a delivery takes, while the database answers.
pub mod Bound
pub mod Dispatch
pub mod Poll
pub mod Step
use settlr.Prelude.{
  ℕ, suc, ◌+◌, ◌-◌, ◌*◌, ◌≤◌, ◌≡◌, ◌≢◌, true, false, Bool, some, none, Option, String, List, [],
  ◌∷◌, ◌++◌, same_text, All, update_where, get_elem?, refl, sum_by, if◌then◌else◌, arith,
  sum_by-append, subst,
}
use settlr.Errors.{Result, ok, err}
use settlr.Action.{handle}
use settlr.Webhook.{
  DeliveryStatus, EndpointRow, DeliveryRow, Services, Hooks, Post, build_webhook_headers,
}
use settlr.Webhook.Repository.{
  is_delivery, is_retrying, mark_delivered, schedule_retry, mark_failed,
}
use settlr.Webhook.Dispatcher.{
  retry_delays_seconds, is_ok, plan_retry, schedule_at, attempt_delivery, send, request, respond,
}
use settlr.Webhook.Dispatcher.Steps.{delay-bound}

abbrev pub counts_for : String → Post → ℕ
counts_for i post = if same_text post.headers.delivery i then 1 else 0

-- The POSTs that were made for a delivery.
abbrev pub posts_to : String → List Post → ℕ
posts_to i posts = sum_by (counts_for i) posts

-- After `n` POSTs: not more than attempts counted, and one less if another is planned.
abbrev pub Fits : ℕ → DeliveryRow → Type 0
Fits n row =
    (n ≤ row.attempt_number)
    × (row.attempt_number ≤ 5)
    × (is_retrying row ≡ true → suc n ≤ row.attempt_number)

-- The delivery `d` was tried, with `posts` POSTs, and its rows were updated by `f`.
pub record Tried (d : DeliveryRow) (s s' : Hooks) : Type 0 where
  pub f : DeliveryRow → DeliveryRow
  pub posts : ℕ
  pub counted :
      (i : String)
      → posts_to i s'.posted ≡ posts_to i s.posted + (if same_text d.id i then posts else 0)
  pub rows : s'.deliveries ≡ update_where (is_delivery d.id) f s.deliveries
  pub fits :
      (n : ℕ) (row : DeliveryRow)
      → suc n ≤ row.attempt_number
      → row.attempt_number ≤ 5
      → row.attempt_number ≡ d.attempt_number
      → ((f row).id ≡ row.id) × Fits (n + posts) (f row)

module _ (v : Services) (now : ℕ) (answered : (n : ℕ) → v.answered n ≡ true) (d : DeliveryRow) where
  -- What is left to do after the POST.
  record Settled (s s' : Hooks) : Type 0 where
    f : DeliveryRow → DeliveryRow
    posted : s'.posted ≡ s.posted
    rows : s'.deliveries ≡ update_where (is_delivery d.id) f s.deliveries
    fits :
        (n : ℕ) (row : DeliveryRow)
        → suc n ≤ row.attempt_number
        → row.attempt_number ≤ 5
        → row.attempt_number ≡ d.attempt_number
        → ((f row).id ≡ row.id) × Fits (n + 1) (f row)

  schedule_at-Settled :
      (o : Option ℕ) (code : Option ℕ) (s : Hooks)
      → get_elem? retry_delays_seconds (d.attempt_number - 1) ≡ o
      → Settled s (schedule_at v now o d code s).1
  unfolding schedule_retry mark_failed
  schedule_at-Settled (some delay) code s e = record {
    f = λ row. record row {
      status = DeliveryStatus.retrying;
      response_code = code;
      attempt_number = suc row.attempt_number;
      next_retry_at = some (now + delay * 1000);
    };
    posted = rw (answered s.statements) refl;
    rows = rw (answered s.statements) refl;
    fits = λ n row h five same. (
      refl,
      (omega arith, omega (arith, delay-bound (d.attempt_number - 1) delay e), λ _. omega arith),
    );
  }
  schedule_at-Settled none code s e = record {
    f = λ row. record row { status = DeliveryStatus.failed; response_code = code };
    posted = rw (answered s.statements) refl;
    rows = rw (answered s.statements) refl;
    fits = λ n row h five same. (refl, (omega arith, five, λ r. cc));
  }

  plan_retry-Settled : (code : Option ℕ) (s : Hooks) → Settled s (plan_retry v now d code s).1
  unfolding plan_retry
  plan_retry-Settled code s =
      schedule_at-Settled (get_elem? retry_delays_seconds (d.attempt_number - 1)) code s refl

  plan_retry-ok : (code : Option ℕ) (s : Hooks) → (plan_retry v now d code s).0 ≡ ok tt
  unfolding plan_retry schedule_retry mark_failed
  plan_retry-ok code s = ground (arith, answered s.statements)

  delivered-Settled : (status : ℕ) (s : Hooks) → Settled s (mark_delivered v now d.id status s).1
  unfolding mark_delivered
  delivered-Settled status s = record {
    f = λ row. record row {
      status = DeliveryStatus.delivered;
      response_code = some status;
      delivered_at = some now;
    };
    posted = rw (answered s.statements) refl;
    rows = rw (answered s.statements) refl;
    fits = λ n row h five same. (refl, (omega arith, five, λ r. cc));
  }

  delivered-ok : (status : ℕ) (s : Hooks) → (mark_delivered v now d.id status s).0 ≡ ok tt
  unfolding mark_delivered
  delivered-ok status s = rw (answered s.statements) refl

  -- An update that was answered is not caught.
  handled-Settled :
      (s : Hooks) (o : Result (Unit {0}) × Hooks)
      → o.0 ≡ ok tt
      → Settled s o.1
      → Settled s (handle o (λ e. plan_retry v now d none)).1
  handled-Settled s (ok u, s') e x = x
  handled-Settled s (err x, s') e _ = cc

  settle-Settled :
      (b : Bool) (status : ℕ) (s : Hooks)
      → let m = if b then mark_delivered v now d.id status else plan_retry v now d (some status) in
        Settled s (handle (m s) (λ e. plan_retry v now d none)).1
  settle-Settled true status s =
      handled-Settled s (mark_delivered v now d.id status s) (delivered-ok status s)
        (delivered-Settled status s)
  settle-Settled false status s =
      handled-Settled s (plan_retry v now d (some status) s) (plan_retry-ok (some status) s)
        (plan_retry-Settled (some status) s)

  respond-Settled : (o : Option ℕ) (s : Hooks) → Settled s (respond v now d (o, s)).1
  respond-Settled none s = plan_retry-Settled none s
  respond-Settled (some status) s = settle-Settled (is_ok status) status s

  -- An attempt makes one POST.
  pub attempt_delivery-Tried :
      (endpoint : EndpointRow) (s : Hooks) → Tried d s (attempt_delivery v now d endpoint s).1
  unfolding attempt_delivery build_webhook_headers
  attempt_delivery-Tried endpoint s =
      let sent = send v now (request v now d endpoint) s in
      let done = respond-Settled sent.0 sent.1 in
      record {
        f = done.f;
        posts = 1;
        counted = λ i.
            rw (done.posted, sum_by-append (counts_for i) s.posted (request v now d endpoint ∷ []))
              (omega arith);
        rows = done.rows;
        fits = done.fits;
      }

  -- A delivery whose endpoint is gone takes none.
  pub mark_failed-Tried : (s : Hooks) → Tried d s (mark_failed v d.id none s).1
  unfolding mark_failed
  mark_failed-Tried s = record {
    f = λ row. record row { status = DeliveryStatus.failed; response_code = none };
    posts = 0;
    counted = λ i. rw (answered s.statements) ground arith;
    rows = rw (answered s.statements) refl;
    fits = λ n row h five same. (refl, (omega arith, five, λ r. cc));
  }
