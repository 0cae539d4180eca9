-- ===== src/Webhook/RetryWorker/Posts/Poll.antt =====
-- A poll keeps the POSTs of every delivery within its attempts.
use settlr.Prelude.{
  sort_by, ℕ, suc, ◌≤◌, ◌≡◌, refl, sym, subst, Bool, true, ◌&&◌, Option, none, some, List, [], ◌∷◌,
  All, All-map, All-keep, All-take, All-passed, keep, take, find, arith,
}
use settlr.Webhook.{EndpointRow, DeliveryRow, Services, Hooks, counted}
use settlr.Webhook.Repository.{
  is_endpoint, is_retrying, is_due, earlier, find_by_id, find_pending_retries,
}
use settlr.Webhook.Rows.{
  HasDistinctIds, Differs, All-sort, sort-HasDistinctIds, keep-HasDistinctIds, take-HasDistinctIds,
}
use settlr.Webhook.Dispatcher.{is_live, retry_to, retry_delivery}
use settlr.Webhook.Dispatcher.Steps.{AreSound, All-both}
use settlr.Webhook.RetryWorker.{retry_all, process_retries}
use settlr.Webhook.RetryWorker.Posts.{
  posts_to, Fits, Tried, attempt_delivery-Tried, mark_failed-Tried,
}
use settlr.Webhook.RetryWorker.Posts.Step.{
  IsUnused, AreCounted, IsReady, Tried-AreCounted, Tried-IsReady,
}

-- A row of the table is in it, and is the only one with its id.
abbrev IsOnly : List DeliveryRow → DeliveryRow → Type 0
IsOnly rows d = (¬ IsUnused d.id rows) × All (λ row. row.id ≡ d.id → row ≡ d) rows

IsOnly-more :
    (row : DeliveryRow) (ds rows : List DeliveryRow)
    → All (Differs row) ds
    → All (IsOnly rows) ds
    → All (IsOnly (row ∷ rows)) ds
IsOnly-more row [] rows n h = tt
IsOnly-more row (d ∷ ds) rows n h =
    ((λ u. h.0.0 u.1, (λ e. absurd (n.0 e), h.0.1)), IsOnly-more row ds rows n.1 h.1)

rows-IsOnly : (rows : List DeliveryRow) → HasDistinctIds rows → All (IsOnly rows) rows
rows-IsOnly [] h = tt
rows-IsOnly (row ∷ rows) h = (
  (λ u. u.0 refl, (λ e. refl, All-map rows (λ x n e. absurd (n (sym e))) h.0)),
  IsOnly-more row rows rows h.0 (rows-IsOnly rows h.1),
)

only-IsReady :
    (s : Hooks) (d : DeliveryRow)
    → IsOnly s.deliveries d
    → Fits (posts_to d.id s.posted) d
    → is_retrying d ≡ true
    → IsReady s d
only-IsReady s d o fit r = record {
  present = o.0;
  agrees =
      All-map s.deliveries
        (λ row same e.
          subst
            (λ x.
              (x.attempt_number ≡ d.attempt_number)
              × (suc (posts_to x.id s.posted) ≤ x.attempt_number))
            (sym (same e)) (refl, fit.2 r))
        o.1;
}

module _ (v : Services) (now : ℕ) (answered : (n : ℕ) → v.answered n ≡ true) where
  retry_to-Tried :
      (d : DeliveryRow) (o : Option EndpointRow) (s : Hooks) → Tried d s (retry_to v now d o s).1
  retry_to-Tried d none s = mark_failed-Tried v now answered d s
  retry_to-Tried d (some endpoint) s = attempt_delivery-Tried v now answered d endpoint s

  retry_delivery-Tried : (d : DeliveryRow) (s : Hooks) → Tried d s (retry_delivery v now d s).1
  unfolding retry_delivery find_by_id
  retry_delivery-Tried d s = rw (answered s.statements) (
      let t =
        retry_to-Tried d (is_live v now (find (is_endpoint d.endpoint_id) s.endpoints))
          (counted s) in
      record { f = t.f; posts = t.posts; counted = t.counted; rows = t.rows; fits = t.fits })

  All-IsReady :
      (d : DeliveryRow) (ds : List DeliveryRow) (s s' : Hooks)
      → ((d' : DeliveryRow) → Differs d d' → IsReady s d' → IsReady s' d')
      → All (Differs d) ds
      → All (IsReady s) ds
      → All (IsReady s') ds
  All-IsReady d [] s s' f n h = tt
  All-IsReady d (d' ∷ ds) s s' f n h = (f d' n.0 h.0, All-IsReady d ds s s' f n.1 h.1)

  retry_all-AreCounted :
      (ds : List DeliveryRow) (s : Hooks)
      → HasDistinctIds ds
      → All (IsReady s) ds
      → AreCounted s
      → AreCounted (retry_all v now ds s).1
  unfolding retry_all
  retry_all-AreCounted [] s n r c = c
  retry_all-AreCounted (d ∷ ds) s n r c =
      let s' = (retry_delivery v now d s).1 in
      let t = retry_delivery-Tried d s in
      retry_all-AreCounted ds s' n.1 (All-IsReady d ds s s' (Tried-IsReady d s s' t c r.0) n.0 r.1)
        (Tried-AreCounted d s s' t c r.0)

  pub pending-AreCounted :
      (s : Hooks) → AreSound s.deliveries → AreCounted s → AreCounted (process_retries v now s).1
  unfolding process_retries find_pending_retries
  pending-AreCounted s h c =
      rw (answered s.statements)
        (retry_all-AreCounted due (counted s) due-HasDistinctIds due-IsReady counts)
    where
      counts : AreCounted (counted s)
      counts = record { fit = c.fit; unused = c.unused }

      pick : DeliveryRow → Bool
      pick row = is_retrying row && is_due now row.next_retry_at

      due : List DeliveryRow
      due = take 50 (sort_by earlier (keep pick s.deliveries))

      due-HasDistinctIds : HasDistinctIds due
      due-HasDistinctIds = take-HasDistinctIds 50 (sort_by earlier (keep pick s.deliveries)) (
          sort-HasDistinctIds earlier (keep pick s.deliveries)
            (keep-HasDistinctIds pick s.deliveries h.0))

      picked : (d : DeliveryRow) → pick d ≡ true → is_retrying d ≡ true
      picked d e = ground arith

      due-IsReady : All (IsReady (counted s)) due
      due-IsReady = All-take _ 50 (sort_by earlier (keep pick s.deliveries)) (
          All-sort earlier _ (keep pick s.deliveries) (
            All-map (keep pick s.deliveries)
              (λ d p. only-IsReady (counted s) d p.0.0 p.0.1 (picked d p.1))
              (All-both _ _ (keep pick s.deliveries)
                (All-keep _ pick s.deliveries
                  (All-both _ _ s.deliveries (rows-IsOnly s.deliveries h.0) c.fit))
                (All-passed pick s.deliveries))))
