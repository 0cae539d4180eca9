-- ===== src/Webhook/Dispatcher/Attempts.antt =====
-- One delivery attempt as a step of the state machine of a delivery.
use settlr.Prelude.{
  ℕ, suc, ◌+◌, ◌-◌, ◌*◌, ◌≤◌, ◌≡◌, refl, subst, Bool, true, false, Option, none, some, Each,
  Each-refl, Each-update, eq_iff, update_where, get_elem?, if◌then◌else◌, arith,
}
use settlr.Errors.{Error, Result, ok, err}
use settlr.Action.{handle, continue, settle}
use settlr.Kafka.{Topic, EventData}
use settlr.Webhook.{
  DeliveryStatus, EndpointRow, DeliveryRow, Services, Hooks, IsLossless, counted, answer,
}
use settlr.Webhook.Repository.{
  update_delivery, is_delivery, mark_delivered, schedule_retry, mark_failed,
}
use settlr.Webhook.Dispatcher.{
  retry_delays_seconds, is_ok, publish, schedule_at, plan_retry, request, send, settle_response,
  respond, attempt_delivery,
}

-- What an attempt for the row `d`, as it was read, may make of a stored row: a success is delivered;
-- a failure is planned again after the delay of the attempt, or, when no delay is left, failed.
pub data Transition (now : ℕ) (d : DeliveryRow) : DeliveryRow → DeliveryRow → Type 0 where
  stays : (row : DeliveryRow) → Transition now d row row
  delivers :
      (row : DeliveryRow) (code : ℕ)
      → row.id ≡ d.id
      → (200 ≤ code) × (code ≤ 299)
      → Transition now d row (record row {
        status = DeliveryStatus.delivered;
        response_code = some code;
        delivered_at = some now;
      })
  retries :
      (row : DeliveryRow) (delay : ℕ) (code : Option ℕ)
      → row.id ≡ d.id
      → get_elem? retry_delays_seconds (d.attempt_number - 1) ≡ some delay
      → Transition now d row (record row {
        status = DeliveryStatus.retrying;
        response_code = code;
        attempt_number = suc row.attempt_number;
        next_retry_at = some (now + delay * 1000);
      })
  fails :
      (row : DeliveryRow) (code : Option ℕ)
      → row.id ≡ d.id
      → get_elem? retry_delays_seconds (d.attempt_number - 1) ≡ none
      → Transition now d row (record row { status = DeliveryStatus.failed; response_code = code })

module _ (v : Services) (lossless : IsLossless v) (now : ℕ) (d : DeliveryRow) where
  abbrev pub Moves : Hooks → Hooks → Type 0
  Moves s s' = Each (Transition now d) s.deliveries s'.deliveries

  update-Moves :
      (f : DeliveryRow → DeliveryRow) (s : Hooks)
      → ((row : DeliveryRow) → row.id ≡ d.id → Transition now d row (f row))
      → Moves s (update_delivery v d.id f s).1
  update-Moves f s h = go (v.answered s.statements) (v.applied s.statements) (lossless s.statements)
    where
      go :
          (b c : Bool)
          → (b ≡ false → c ≡ false)
          → Moves s
              (answer {0} b c
                (
                  ok tt,
                  record (counted s) {
                    deliveries = update_where (is_delivery d.id) f s.deliveries;
                  },
                )
                (counted s)).1
      go true c e =
          Each-update (Transition now d) (λ row. Transition.stays row) (is_delivery d.id) f
            s.deliveries λ row e. h row ((eq_iff row.id d.id).0 e)
      go false false e = Each-refl (Transition now d) (λ row. Transition.stays row) s.deliveries
      go false true e = cc (e refl)

  schedule-Moves :
      (o : Option ℕ) (code : Option ℕ) (s : Hooks)
      → get_elem? retry_delays_seconds (d.attempt_number - 1) ≡ o
      → Moves s (schedule_at v now o d code s).1
  unfolding schedule_retry mark_failed
  schedule-Moves (some delay) code s e =
      update-Moves _ s λ row same. Transition.retries row delay code same e
  schedule-Moves none code s e =
      go _ (update-Moves _ s λ row same. Transition.fails row code same e)
    where
      go :
          (o : Result (Unit {0}) × Hooks)
          → Moves s o.1
          → Moves s
              (continue o λ u. settle (
                publish v now Topic.webhook_delivery_failed
                  (EventData.delivery_failed d.id d.endpoint_id d.event_type d.attempt_number code)
                  d.id)).1
      go (ok u, s') m = m
      go (err x, s') m = m

  plan_retry-Moves : (code : Option ℕ) (s : Hooks) → Moves s (plan_retry v now d code s).1
  unfolding plan_retry
  plan_retry-Moves code s =
      schedule-Moves (get_elem? retry_delays_seconds (d.attempt_number - 1)) code s refl

  -- The two updates of one attempt: the second is only tried if the first was not answered.
  failed-statement :
      (f : DeliveryRow → DeliveryRow) (s : Hooks) (e : Error)
      → (update_delivery v d.id f s).0 ≡ err e
      → (update_delivery v d.id f s).1.deliveries ≡ s.deliveries
  failed-statement f s e h = ground (arith, lossless s.statements)

  failed-plan :
      (o : Option ℕ) (code : Option ℕ) (s : Hooks) (e : Error)
      → (schedule_at v now o d code s).0 ≡ err e
      → (schedule_at v now o d code s).1.deliveries ≡ s.deliveries
  unfolding schedule_retry mark_failed
  failed-plan none code s e h = ground (arith, lossless s.statements)
  failed-plan (some delay) code s e h = ground (arith, lossless s.statements)

  caught-Moves :
      (s : Hooks) (o : Result (Unit {0}) × Hooks)
      → Moves s o.1
      → ((e : Error) → o.0 ≡ err e → o.1.deliveries ≡ s.deliveries)
      → Moves s (handle o (λ e. plan_retry v now d none)).1
  caught-Moves s (ok u, s') m h = m
  caught-Moves s (err e, s') m h =
      subst (λ rows. Each (Transition now d) rows (plan_retry v now d none s').1.deliveries)
        (h e refl) (plan_retry-Moves none s')

  settled-Moves :
      (status : ℕ) (s : Hooks)
      → Moves s (handle (settle_response v now d status s) (λ e. plan_retry v now d none)).1
  unfolding mark_delivered plan_retry
  settled-Moves status s = go (is_ok status) refl
    where
      go :
          (b : Bool)
          → is_ok status ≡ b
          → Moves s
              (handle
                ((if b then mark_delivered v now d.id status else plan_retry v now d (some status))
                  s)
                (λ e. plan_retry v now d none)).1
      go true e =
          caught-Moves s _
            (update-Moves _ s λ row same. Transition.delivers row status same (ground arith))
            (failed-statement _ s)
      go false e =
          caught-Moves s _ (plan_retry-Moves (some status) s)
            (failed-plan (get_elem? retry_delays_seconds (d.attempt_number - 1)) (some status) s)

  -- An attempt moves each row of the table by at most one step of the state machine, whatever the
  -- endpoint and the database answer, if no statement takes effect without being answered: a row with another id stays.
  pub attempt_delivery-Moves :
      (endpoint : EndpointRow) (s : Hooks) → Moves s (attempt_delivery v now d endpoint s).1
  unfolding attempt_delivery
  attempt_delivery-Moves endpoint s = go (send v now (request v now d endpoint) s) refl
    where
      go : (o : Option ℕ × Hooks) → o.1.deliveries ≡ s.deliveries → Moves s (respond v now d o).1
      go (none, s') e =
          subst (λ rows. Each (Transition now d) rows (plan_retry v now d none s').1.deliveries) e
            (plan_retry-Moves none s')
      go (some status, s') e =
          subst
            (λ rows. Each (Transition now d) rows (respond v now d (some status, s')).1.deliveries)
            e (settled-Moves status s')
