-- ===== src/Webhook/RetryWorker/Posts/Bound.antt =====
-- At most five POSTs for a delivery, over the calls of the service.
use settlr.Prelude.{
  ℕ, ◌≤◌, ◌≡◌, refl, true, List, [], ◌∷◌, String, All, arith, ◌⊎◌, inl, inr, text-discrete,
}
use settlr.Webhook.{DeliveryRow, Post, Services, Hooks}
use settlr.Webhook.Dispatcher.{dispatch_webhook}
use settlr.Webhook.Dispatcher.Steps.{AreSound, answered-IsLossless}
use settlr.Webhook.RetryWorker.{process_retries}
use settlr.Webhook.RetryWorker.Lifecycle.{Call, serve, pending-AreSound, dispatch_webhook-AreSound}
use settlr.Webhook.RetryWorker.Posts.{posts_to, Fits}
use settlr.Webhook.RetryWorker.Posts.Step.{IsUnused, AreCounted}
use settlr.Webhook.RetryWorker.Posts.Poll.{pending-AreCounted}
use settlr.Webhook.RetryWorker.Posts.Dispatch.{dispatch_webhook-AreCounted}

serve-AreCounted :
    (v : Services) (answered : (n : ℕ) → v.answered n ≡ true) (calls : List Call) (s : Hooks)
    → AreSound s.deliveries
    → AreCounted s
    → AreCounted (serve v calls s)
unfolding serve
serve-AreCounted v answered [] s h c = c
serve-AreCounted v answered (Call.dispatched now transaction_id event_type payload ∷ calls) s h c =
    serve-AreCounted v answered calls (dispatch_webhook v now transaction_id event_type payload s).1
      (dispatch_webhook-AreSound v (answered-IsLossless v answered) now transaction_id event_type
        payload s h)
      (dispatch_webhook-AreCounted v now answered transaction_id event_type payload s c)
serve-AreCounted v answered (Call.polled now ∷ calls) s h c =
    serve-AreCounted v answered calls (process_retries v now s).1
      (pending-AreSound v (answered-IsLossless v answered) now s h)
      (pending-AreCounted v now answered s h c)

few_posts :
    (i : String) (posts : List Post) (rows : List DeliveryRow)
    → All (λ row. Fits (posts_to row.id posts) row) rows
    → IsUnused i rows ⊎ (posts_to i posts ≤ 5)
few_posts i posts [] h = inl tt
few_posts i posts (row ∷ rows) (fit, h) = elim (text-discrete i row.id) [
  | yes e ↦ inr (rw e (omega (arith, fit)))
  | no n ↦ elim (few_posts i posts rows h) [ inl u ↦ inl (n, u) | inr few ↦ inr few ]
]

-- From empty tables of deliveries and no request made, while the database answers every statement,
-- any sequence of dispatches and polls, each made after the one before has ended, makes at most five
-- POSTs for a delivery, whatever the endpoints and the broker answer.
pub serve-posts :
    (v : Services) (calls : List Call) (s : Hooks)
    → ((n : ℕ) → v.answered n ≡ true)
    → s.deliveries ≡ []
    → s.posted ≡ []
    → (i : String) → posts_to i (serve v calls s).posted ≤ 5
serve-posts v calls s answered none_stored none_made i =
    let c =
      serve-AreCounted v answered calls s (rw none_stored (tt, tt))
        (record { fit = rw none_stored tt; unused = λ j u. rw none_made refl }) in
    elim (few_posts i (serve v calls s).posted (serve v calls s).deliveries c.fit) [
      | inl u ↦ omega (arith, c.unused i u)
      | inr few ↦ few
    ]
