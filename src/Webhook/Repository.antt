-- ===== src/Webhook/Repository.antt =====
-- webhook.repository.ts. The ids that select a row are texts that PostgreSQL printed.
use settlr.Prelude.{
  sort_by, ℕ, suc, Bool, true, false, ◌&&◌, Option, none, some, List, [], ◌∷◌, ◌++◌, String,
  same_text, has, ltb, leb, find, keep, take, update_where, count_where,
}
use settlr.Errors.{fault, Fault, Result, ok, err}
use settlr.Action.{Action}
use settlr.Webhook.{DeliveryStatus, EndpointRow, DeliveryRow, Services, Hooks, statement}

abbrev pub is_endpoint : String → EndpointRow → Bool
is_endpoint i row = same_text row.id i

abbrev pub is_delivery : String → DeliveryRow → Bool
is_delivery i row = same_text row.id i

abbrev pub is_retrying : DeliveryRow → Bool
is_retrying row = elim row.status [ DeliveryStatus.retrying ↦ true | _ ↦ false ]

-- `next_retry_at <= now`; NULL is not.
abbrev pub is_due : ℕ → Option ℕ → Bool
is_due now none = false
is_due now (some t) = leb t now

-- ORDER BY next_retry_at ASC, where NULL is last.
abbrev pub earlier : DeliveryRow → DeliveryRow → Bool
earlier a b = elim a.next_retry_at [
  | none ↦ false
  | some t ↦ elim b.next_retry_at [ none ↦ true | some u ↦ leb t u ]
]

module _ (v : Services) where
  -- createEndpoint
  unfoldable pub create_endpoint : ℕ → String → String → List String → Action Hooks EndpointRow
  create_endpoint now user_id url events = statement v λ s.
      let row : EndpointRow = record {
        id = v.random_uuid s.draws;
        user_id = user_id;
        url = url;
        secret = v.random_secret s.draws;
        events = events;
        is_active = true;
        created_at = now;
      } in
      (ok row, record s { endpoints = s.endpoints ++ (row ∷ []); draws = suc s.draws })

  -- findById
  unfoldable pub find_by_id : String → Action Hooks (Option EndpointRow)
  find_by_id i = statement v λ s. (ok (find (is_endpoint i) s.endpoints), s)

  abbrev pub owned_by : String → String → EndpointRow → Bool
  owned_by i user_id row = same_text row.id i && same_text row.user_id user_id

  -- deactivate
  unfoldable pub deactivate : String → String → Action Hooks Bool
  deactivate i user_id = statement v λ s. (
    ok (ltb 0 (count_where (owned_by i user_id) s.endpoints)),
    record s {
      endpoints =
          update_where (owned_by i user_id) (λ row. record row { is_active = false }) s.endpoints;
    },
  )

  -- findActiveByEvent
  unfoldable pub find_active_by_event : String → Action Hooks (List EndpointRow)
  find_active_by_event event_type =
      statement v
        λ s. (ok (keep (λ row. row.is_active && has event_type row.events) s.endpoints), s)

  abbrev pub inserted : DeliveryRow → Option DeliveryRow → Hooks → Result DeliveryRow × Hooks
  inserted row none s =
      (ok row, record s { deliveries = s.deliveries ++ (row ∷ []); draws = suc s.draws })
  inserted row (some _) s = (err (fault Fault.unique_violation), record s { draws = suc s.draws })

  -- createDelivery; the primary key refuses an id that is there.
  unfoldable pub create_delivery :
      ℕ → String → Option String → String → String → Action Hooks DeliveryRow
  create_delivery now endpoint_id transaction_id event_type payload = statement v λ s.
      let row : DeliveryRow = record {
        id = v.random_uuid s.draws;
        endpoint_id = endpoint_id;
        transaction_id = transaction_id;
        event_type = event_type;
        payload = v.reserialized payload;
        status = DeliveryStatus.pending;
        attempt_number = 1;
        response_code = none;
        next_retry_at = none;
        delivered_at = none;
        created_at = now;
      } in
      inserted row (find (is_delivery row.id) s.deliveries) s

  abbrev pub update_delivery : String → (DeliveryRow → DeliveryRow) → Action Hooks (Unit {0})
  update_delivery i f =
      statement v
        λ s. (ok tt, record s { deliveries = update_where (is_delivery i) f s.deliveries })

  -- markDelivered
  unfoldable pub mark_delivered : ℕ → String → ℕ → Action Hooks (Unit {0})
  mark_delivered now i code = update_delivery i λ row. record row {
    status = DeliveryStatus.delivered;
    response_code = some code;
    delivered_at = some now;
  }

  -- scheduleRetry
  unfoldable pub schedule_retry : String → ℕ → Option ℕ → Action Hooks (Unit {0})
  schedule_retry i next_retry_at code = update_delivery i λ row. record row {
    status = DeliveryStatus.retrying;
    response_code = code;
    attempt_number = suc row.attempt_number;
    next_retry_at = some next_retry_at;
  }

  -- markFailed
  unfoldable pub mark_failed : String → Option ℕ → Action Hooks (Unit {0})
  mark_failed i code =
      update_delivery i λ row. record row { status = DeliveryStatus.failed; response_code = code }

  -- findPendingRetries
  unfoldable pub find_pending_retries : ℕ → Action Hooks (List DeliveryRow)
  find_pending_retries now = statement v λ s. (
    ok (
        take 50 (
          sort_by earlier
            (keep (λ row. is_retrying row && is_due now row.next_retry_at) s.deliveries))),
    s,
  )
