-- ===== src/Webhook/RetryWorker/Lifecycle.antt =====
-- The deliveries over the calls of the service that run one after the other: a dispatch and a poll.
use settlr.Prelude.{
  sort_by, ℕ, ◌≡◌, refl, Bool, true, false, ◌&&◌, Option, none, List, [], ◌∷◌, String, All, Each,
  Each-refl, All-keep, All-take, keep, take, find, has, arith,
}
use settlr.Errors.{ok}
use settlr.Action.{continue}
use settlr.Webhook.{
  DeliveryStatus, EndpointRow, DeliveryRow, Services, Hooks, IsLossless, answer, counted,
}
use settlr.Webhook.Repository.{
  is_delivery, is_endpoint, is_retrying, is_due, earlier, find_by_id, find_active_by_event,
  find_pending_retries, create_delivery, inserted,
}
use settlr.Webhook.Rows.{
  HasDistinctIds, Agrees, AreCurrent, rows-AreCurrent, All-sort, sort-HasDistinctIds,
  keep-HasDistinctIds, take-HasDistinctIds,
}
use settlr.Webhook.Dispatcher.{
  attempt_delivery, is_live, retry_to, retry_delivery, deliver_to, deliver_all, dispatch_webhook,
}
use settlr.Webhook.RetryWorker.{retry_all, process_retries}
use settlr.Webhook.Dispatcher.Steps.{
  Keeps, AreSound, Keeps-refl, retry_to-Keeps, kept-AreCurrent, kept-AreSound, first-AreSound,
}

-- The calls that the service makes one after the other: an event arrives, or a poll is due.
pub data Call : Type 0 where
  dispatched : (now : ℕ) (transaction_id : Option String) (event_type payload : String) → Call
  polled : ℕ → Call

unfoldable pub serve : Services → List Call → Hooks → Hooks
serve v [] s = s
serve v (Call.dispatched now transaction_id event_type payload ∷ calls) s =
    serve v calls (dispatch_webhook v now transaction_id event_type payload s).1
serve v (Call.polled now ∷ calls) s = serve v calls (process_retries v now s).1

module _ (v : Services) (lossless : IsLossless v) (now : ℕ) where
  retry_delivery-Keeps :
      (d : DeliveryRow) (s : Hooks)
      → Each (Keeps d) s.deliveries (retry_delivery v now d s).1.deliveries
  unfolding retry_delivery find_by_id
  retry_delivery-Keeps d s =
      go (v.answered s.statements) (v.applied s.statements) (lossless s.statements)
    where
      go :
          (b c : Bool)
          → (b ≡ false → c ≡ false)
          → Each
              (Keeps d)
              s.deliveries
              (continue {0, 0}
                (answer {0} b c
                  (ok (find (is_endpoint d.endpoint_id) s.endpoints), counted s)
                  (counted s))
                (λ endpoint. retry_to v now d (is_live v now endpoint))).1.deliveries
      go true c l =
          retry_to-Keeps v lossless now d
            (is_live v now (find (is_endpoint d.endpoint_id) s.endpoints)) (counted s)
      go false false l = Each-refl (Keeps d) (Keeps-refl v lossless now d) s.deliveries
      go false true l = cc (l refl)

  retry_all-AreSound :
      (ds : List DeliveryRow) (s : Hooks)
      → HasDistinctIds ds
      → AreCurrent s.deliveries ds
      → AreSound s.deliveries
      → AreSound (retry_all v now ds s).1.deliveries
  unfolding retry_all
  retry_all-AreSound [] s n c h = h
  retry_all-AreSound (d ∷ ds) s n c h =
      let s' = (retry_delivery v now d s).1 in
      let e = retry_delivery-Keeps d s in
      retry_all-AreSound ds s' n.1 (kept-AreCurrent d ds s.deliveries s'.deliveries n.0 e c.1)
        (kept-AreSound d s.deliveries s'.deliveries e c.0 h)

  pub pending-AreSound :
      (s : Hooks) → AreSound s.deliveries → AreSound (process_retries v now s).1.deliveries
  unfolding process_retries find_pending_retries
  pending-AreSound s h =
      go (v.answered s.statements) (v.applied s.statements) (lossless s.statements)
    where
      pick : DeliveryRow → Bool
      pick row = is_retrying row && is_due now row.next_retry_at

      due : List DeliveryRow
      due = take 50 (sort_by earlier (keep pick s.deliveries))

      due-HasDistinctIds : HasDistinctIds due
      due-HasDistinctIds = take-HasDistinctIds 50 (sort_by earlier (keep pick s.deliveries)) (
          sort-HasDistinctIds earlier (keep pick s.deliveries)
            (keep-HasDistinctIds pick s.deliveries h.0))

      due-AreCurrent : AreCurrent s.deliveries due
      due-AreCurrent =
          let P : DeliveryRow → Type 0 = λ d. All (Agrees d) s.deliveries in
          All-take P 50 (sort_by earlier (keep pick s.deliveries)) (
            All-sort earlier P (keep pick s.deliveries)
              (All-keep P pick s.deliveries (rows-AreCurrent s.deliveries h.0)))

      go :
          (b c : Bool)
          → (b ≡ false → c ≡ false)
          → AreSound
              (continue {0, 0}
                (answer {0} b c (ok due, counted s) (counted s))
                (retry_all v now)).1.deliveries
      go true c l = retry_all-AreSound due (counted s) due-HasDistinctIds due-AreCurrent h
      go false false l = h
      go false true l = cc (l refl)

  deliver_to-AreSound :
      (transaction_id : Option String) (event_type payload : String) (endpoint : EndpointRow)
      (s : Hooks)
      → AreSound s.deliveries
      → AreSound (deliver_to v now transaction_id event_type payload endpoint s).1.deliveries
  unfolding create_delivery
  deliver_to-AreSound transaction_id event_type payload endpoint s h =
      go (v.answered s.statements) (v.applied s.statements) (lossless s.statements)
    where
      row : DeliveryRow
      row = record {
        id = v.random_uuid s.draws;
        endpoint_id = endpoint.id;
        transaction_id = transaction_id;
        event_type = event_type;
        payload = v.reserialized payload;
        status = DeliveryStatus.pending;
        attempt_number = 1;
        response_code = none;
        next_retry_at = none;
        delivered_at = none;
        created_at = now;
      }

      go :
          (b c : Bool)
          → (b ≡ false → c ≡ false)
          → AreSound
              (continue {0, 0}
                (answer {0} b c
                  (inserted v row (find (is_delivery row.id) s.deliveries) (counted s))
                  (counted s))
                (λ d. attempt_delivery v now d endpoint)).1.deliveries
      go true c l =
          first-AreSound v lossless now row endpoint (find (is_delivery row.id) s.deliveries)
            (counted s) refl (omega arith, omega arith) h
      go false false l = h
      go false true l = cc (l refl)

  deliver_all-AreSound :
      (transaction_id : Option String) (event_type payload : String) (endpoints : List EndpointRow)
      (s : Hooks)
      → AreSound s.deliveries
      → AreSound (deliver_all v now transaction_id event_type payload endpoints s).1.deliveries
  unfolding deliver_all
  deliver_all-AreSound transaction_id event_type payload [] s h = h
  deliver_all-AreSound transaction_id event_type payload (endpoint ∷ endpoints) s h =
      deliver_all-AreSound transaction_id event_type payload endpoints
        (deliver_to v now transaction_id event_type payload endpoint s).1
        (deliver_to-AreSound transaction_id event_type payload endpoint s h)

  pub dispatch_webhook-AreSound :
      (transaction_id : Option String) (event_type payload : String) (s : Hooks)
      → AreSound s.deliveries
      → AreSound (dispatch_webhook v now transaction_id event_type payload s).1.deliveries
  unfolding dispatch_webhook find_active_by_event
  dispatch_webhook-AreSound transaction_id event_type payload s h =
      go (v.answered s.statements) (v.applied s.statements) (lossless s.statements)
    where
      live : List EndpointRow
      live = keep (λ row. row.is_active && has event_type row.events) s.endpoints

      go :
          (b c : Bool)
          → (b ≡ false → c ≡ false)
          → AreSound
              (continue {0, 0}
                (answer {0} b c (ok live, counted s) (counted s))
                (deliver_all v now transaction_id event_type payload)).1.deliveries
      go true c l = deliver_all-AreSound transaction_id event_type payload live (counted s) h
      go false false l = h
      go false true l = cc (l refl)

-- If no statement takes effect without being answered, then from a table whose deliveries have distinct
-- ids and count one to five attempts, whichever statements are answered, and whatever the endpoints and
-- the broker answer, any sequence of dispatches and polls, each made
-- after the one before has ended, leads to a table whose deliveries do so too.
pub serve-AreSound :
    (v : Services) (calls : List Call) (s : Hooks)
    → IsLossless v
    → AreSound s.deliveries
    → AreSound (serve v calls s).deliveries
unfolding serve
serve-AreSound v [] s lossless h = h
serve-AreSound v (Call.dispatched now transaction_id event_type payload ∷ calls) s lossless h =
    serve-AreSound v calls (dispatch_webhook v now transaction_id event_type payload s).1 lossless
      (dispatch_webhook-AreSound v lossless now transaction_id event_type payload s h)
serve-AreSound v (Call.polled now ∷ calls) s lossless h =
    serve-AreSound v calls (process_retries v now s).1 lossless
      (pending-AreSound v lossless now s h)
