-- ===== src/Webhook/RetryWorker/Posts/Dispatch.antt =====
-- A dispatch keeps the POSTs of every delivery within its attempts.
use settlr.Prelude.{
  ℕ, ◌≡◌, refl, sym, true, false, ◌&&◌, Option, none, some, List, [], ◌∷◌, ◌++◌, String, All-map,
  All-append, keep, find, has, arith,
}
use settlr.Action.{continue}
use settlr.Webhook.{DeliveryStatus, EndpointRow, DeliveryRow, Services, Hooks, counted}
use settlr.Webhook.Repository.{
  is_delivery, is_retrying, find_active_by_event, create_delivery, inserted,
}
use settlr.Webhook.Dispatcher.{attempt_delivery, deliver_to, deliver_all, dispatch_webhook}
use settlr.Webhook.Dispatcher.Steps.{absent-Differs, answered-IsLossless}
use settlr.Webhook.RetryWorker.Posts.{posts_to, attempt_delivery-Tried}
use settlr.Webhook.RetryWorker.Posts.Step.{IsUnused, AreCounted, IsReady, Tried-AreCounted}

module _ (v : Services) (now : ℕ) (answered : (n : ℕ) → v.answered n ≡ true) where
  -- The first POST for a row that was just inserted.
  first-AreCounted :
      (d : DeliveryRow) (endpoint : EndpointRow) (o : Option DeliveryRow) (s : Hooks)
      → find (is_delivery d.id) s.deliveries ≡ o
      → d.attempt_number ≡ 1
      → is_retrying d ≡ false
      → AreCounted s
      → AreCounted
          (continue {0, 0} (inserted v d o s) (λ row. attempt_delivery v now row endpoint)).1
  first-AreCounted d endpoint (some found) s e one r c = record { fit = c.fit; unused = c.unused }
  first-AreCounted d endpoint none s e one r c =
      Tried-AreCounted d s' _ (attempt_delivery-Tried v now answered d endpoint s') counts ready
    where
      s' : Hooks
      s' = (inserted v d none s).1

      absent : IsUnused d.id s.deliveries
      absent =
          All-map s.deliveries (λ row n same. n (sym same))
            (absent-Differs v (answered-IsLossless v answered) now d s.deliveries e)

      no_posts : posts_to d.id s.posted ≡ 0
      no_posts = c.unused d.id absent

      unused_before :
          (i : String) (rows : List DeliveryRow) → IsUnused i (rows ++ d ∷ []) → IsUnused i rows
      unused_before i [] u = tt
      unused_before i (row ∷ rows) u = (u.0, unused_before i rows u.1)

      unused_last : (rows : List DeliveryRow) → ¬ IsUnused d.id (rows ++ d ∷ [])
      unused_last [] u = u.0 refl
      unused_last (row ∷ rows) u = unused_last rows u.1

      counts : AreCounted s'
      counts = record {
        fit =
            All-append _ s.deliveries (d ∷ []) c.fit
              ((omega (arith, no_posts, one), omega (arith, one), λ h. cc), tt);
        unused = λ i u. c.unused i (unused_before i s.deliveries u);
      }

      ready : IsReady s' d
      ready = record {
        present = unused_last s.deliveries;
        agrees =
            All-append _ s.deliveries (d ∷ [])
              (All-map s.deliveries (λ row n same. absurd (n (sym same))) absent)
              (λ same. (refl, omega (arith, no_posts, one)), tt);
      }

  deliver_to-AreCounted :
      (transaction_id : Option String) (event_type payload : String) (endpoint : EndpointRow)
      (s : Hooks)
      → AreCounted s
      → AreCounted (deliver_to v now transaction_id event_type payload endpoint s).1
  unfolding create_delivery
  deliver_to-AreCounted transaction_id event_type payload endpoint s c =
      rw (answered s.statements) (
        first-AreCounted row endpoint (find (is_delivery row.id) s.deliveries) (counted s) refl refl
          refl (record { fit = c.fit; unused = c.unused }))
    where
      row : DeliveryRow
      row = record {
        id = v.random_uuid s.draws;
        endpoint_id = endpoint.id;
        transaction_id = transaction_id;
        event_type = event_type;
        payload = v.reserialized payload;
        status = DeliveryStatus.pending;
        attempt_number = 1;
        response_code = none;
        next_retry_at = none;
        delivered_at = none;
        created_at = now;
      }

  deliver_all-AreCounted :
      (transaction_id : Option String) (event_type payload : String) (endpoints : List EndpointRow)
      (s : Hooks)
      → AreCounted s
      → AreCounted (deliver_all v now transaction_id event_type payload endpoints s).1
  unfolding deliver_all
  deliver_all-AreCounted transaction_id event_type payload [] s c = c
  deliver_all-AreCounted transaction_id event_type payload (endpoint ∷ endpoints) s c =
      deliver_all-AreCounted transaction_id event_type payload endpoints
        (deliver_to v now transaction_id event_type payload endpoint s).1
        (deliver_to-AreCounted transaction_id event_type payload endpoint s c)

  pub dispatch_webhook-AreCounted :
      (transaction_id : Option String) (event_type payload : String) (s : Hooks)
      → AreCounted s
      → AreCounted (dispatch_webhook v now transaction_id event_type payload s).1
  unfolding dispatch_webhook find_active_by_event
  dispatch_webhook-AreCounted transaction_id event_type payload s c = rw (answered s.statements) (
      deliver_all-AreCounted transaction_id event_type payload
        (keep (λ row. row.is_active && has event_type row.events) s.endpoints) (counted s)
        (record { fit = c.fit; unused = c.unused }))
