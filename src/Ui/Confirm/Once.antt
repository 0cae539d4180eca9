-- ===== src/Ui/Confirm/Once.antt =====
-- However often the user presses, one payment at most.
use settlr.Prelude.{
  ℕ, ◌≡◌, ◌⊎◌, inl, inr, refl, sym, ◌∙◌, subst, Bool, true, false, some, List, [], ◌∷◌, ◌++◌,
  String, find, eq_iff, if◌then◌else◌, if-both, arith,
}
use settlr.Errors.{ok}
use settlr.Database.{TransactionRow, Tables}
use settlr.Payment.{PaymentParams, FraudResult, Platform}
use settlr.Payment.Repository.{has_key}
use settlr.Payment.Transfer.{transfer}
use settlr.Payment.Transfer.Records.{transfer-records, transfer-unique_key}
use settlr.Books.Transfer.{transfer-parties}
use settlr.Payment.Handler.{Numbers, Reply, present}
use settlr.Gateway.{Delivery, Edge, Edges, post_api_payments}
use settlr.Gateway.Payments.{Charges, Tells, post_api_payments-Tells}
use settlr.Ui.Confirm.{
  Status, Props, Screen, Press, new_screen, request_of, arrived, handle_confirm, pressed, press_all,
}

find-last :
    (k : String) (row : TransactionRow) (rows : List TransactionRow)
    → row.idempotency_key ≡ k
    → (old : TransactionRow) × (find (has_key k) (rows ++ row ∷ []) ≡ some old)
find-last k row [] e = (row, rw ((eq_iff row.idempotency_key k).1 e) refl)
find-last k row (x ∷ rows) e =
    let (old, found) = find-last k row rows e in
    elim (has_key k x)
      as (λ b.
        (o : TransactionRow) × ((if b then some x else find (has_key k) (rows ++ row ∷ []))
          ≡ some o)) [ true ↦ (x, refl) | false ↦ (old, found) ]

-- The key of a request is in the table once its transfer is committed.
transfer-has_key :
    (p : Platform) (q : PaymentParams) (fraud : FraudResult) (t : Tables) (row : TransactionRow)
    → (transfer p q fraud t).0 ≡ ok row
    → (old : TransactionRow) × (find
          (has_key q.idempotency_key)
          (transfer p q fraud t).1.transactions
        ≡ some old)
transfer-has_key p q fraud t row returned =
    let x = transfer-parties p q fraud t row returned in
    let (d, c, es, txs, (status, key, from, to, amount), v, u) =
      transfer-records p q fraud x.f x.g x.reads_f x.reads_g t x.sender x.recipient x.has_sender
        x.has_recipient returned in
    rw txs (find-last q.idempotency_key row t.transactions key)

module _ (g : Edge) (p : Platform) (n : Numbers) (resolves : ℕ → Bool) (props : Props)
    (key : String) where
  -- One transfer of what the screen shows, under its key.
  abbrev pub Paid : Tables → Tables → Type 0
  Paid t t' =
      (press : Press) × (row : TransactionRow) × Charges g p n (request_of props key press) t row t'

  abbrev HasKey : Tables → Type 0
  HasKey t = (old : TransactionRow) × (find (has_key key) t.transactions ≡ some old)

  key_of :
      (press : Press) (k : String)
      → present (request_of {F = n.Float} props key press).idempotency_key ≡ some k
      → k ≡ key
  unfolding request_of
  key_of press k e = ground arith

  Paid-HasKey : (t t' : Tables) → Paid t t' → HasKey t'
  Paid-HasKey t t'
        (
          press,
          row,
          (q, m, pos, max, from, to, rupees, text, user, keyed, (fraud, free, returned, e)),
        ) =
      let (old, found) = transfer-has_key p q fraud t row returned in
      (old, rw (e, sym (key_of press q.idempotency_key keyed)) found)

  HasKey-never : (t t' : Tables) → HasKey t → ¬ Paid t t'
  HasKey-never t t' (old, used)
        (
          press,
          row,
          (q, m, pos, max, from, to, rupees, text, user, keyed, (fraud, free, returned, e)),
        ) =
      transfer-unique_key p q fraud t old row (rw (key_of press q.idempotency_key keyed) used)
        returned

  -- What a press does to the tables.
  abbrev Steps : Tables → Tables → Type 0
  Steps t t' = (t' ≡ t) ⊎ Paid t t'

  Tells-Steps :
      (press : Press) (reply : Reply) (t t' : Tables)
      → Tells g p n (request_of props key press) t reply t'
      → Steps t t'
  Tells-Steps press reply t t' h = by_success reply.success h
    where
      by_success :
          (b : Bool)
          → (if b
              then ((reply.status ≡ 200) × (t' ≡ t))
                ⊎ ((row : TransactionRow) × (reply.status ≡ 201)
                    × (reply.transaction ≡ some row)
                    × Charges g p n (request_of props key press) t row t')
              else (t' ≡ t)
              ⊎ (((reply.status ≡ 500) ⊎ (reply.status ≡ 502))
                  × (row : TransactionRow) × Charges g p n (request_of props key press) t row t'))
          → Steps t t'
      by_success true (inl h) = inl h.1
      by_success true (inr (row, status, found, c)) = inr (press, row, c)
      by_success false (inl h) = inl h
      by_success false (inr (status, row, c)) = inr (press, row, c)

  module _ (press : Press) (screen : Screen) (w : Edges g p n)
      (same : screen.idempotency_key ≡ key) where
    handle_confirm-Steps :
        let out = handle_confirm g p n resolves props press screen w in
        Steps w.inner.tables out.1.inner.tables × (out.0.idempotency_key ≡ key)
    unfolding handle_confirm
    handle_confirm-Steps = delivered press.to_gateway
      where
        reply : Reply × Edges g p n
        reply = post_api_payments g p n (request_of props screen.idempotency_key press) w

        told : Steps w.inner.tables reply.1.inner.tables
        told =
            subst
              (λ k.
                Steps w.inner.tables
                  (post_api_payments g p n (request_of props k press) w).1.inner.tables)
              (sym same)
              (Tells-Steps press (post_api_payments g p n (request_of props key press) w).0
                w.inner.tables
                (post_api_payments g p n (request_of props key press) w).1.inner.tables
                (post_api_payments-Tells g p n (request_of props key press) w))

        delivered :
            (d : Delivery)
            → let out = arrived g p n resolves props d reply w screen in
              Steps w.inner.tables out.1.inner.tables × (out.0.idempotency_key ≡ key)
        delivered Delivery.answered = (
          told,
          if-both (λ (x : Screen). x.idempotency_key ≡ key) (resolves reply.0.status) same same,
        )
        delivered Delivery.lost = (told, same)
        delivered Delivery.unreached = (inl refl, same)

    pressed-Steps :
        let out = pressed g p n resolves props press screen w in
        Steps w.inner.tables out.1.inner.tables × (out.0.idempotency_key ≡ key)
    pressed-Steps = by_status screen.status
      where
        by_status :
            (status : Status)
            → let out : Screen × Edges g p n = elim status [
              | Status.review ↦ handle_confirm g p n resolves props press screen w
              | Status.error ↦ handle_confirm g p n resolves props press screen w
              | Status.success ↦ (screen, w)
            ] in
              Steps w.inner.tables out.1.inner.tables × (out.0.idempotency_key ≡ key)
        by_status Status.review = handle_confirm-Steps
        by_status Status.error = handle_confirm-Steps
        by_status Status.success = (inl refl, same)

  -- After the payment, no press changes the tables.
  paid-keeps :
      (presses : List Press) (screen : Screen) (w : Edges g p n)
      → screen.idempotency_key ≡ key
      → HasKey w.inner.tables
      → (press_all g p n resolves props presses screen w).1.inner.tables ≡ w.inner.tables
  unfolding press_all
  paid-keeps [] screen w same used = refl
  paid-keeps (press ∷ presses) screen w same used =
      let out = pressed g p n resolves props press screen w in
      elim (pressed-Steps press screen w same).0 [
        | inl kept ↦
            paid-keeps presses out.0 out.1 (pressed-Steps press screen w same).1 (rw kept used)
            ∙ kept
        | inr paid ↦ absurd (HasKey-never w.inner.tables out.1.inner.tables used paid)
      ]

  presses-Steps :
      (presses : List Press) (screen : Screen) (w : Edges g p n)
      → screen.idempotency_key ≡ key
      → Steps w.inner.tables (press_all g p n resolves props presses screen w).1.inner.tables
  unfolding press_all
  presses-Steps [] screen w same = inl refl
  presses-Steps (press ∷ presses) screen w same =
      let out = pressed g p n resolves props press screen w in
      let same' = (pressed-Steps press screen w same).1 in
      elim (pressed-Steps press screen w same).0 [
        | inl kept ↦
            subst (λ t. Steps t (press_all g p n resolves props presses out.0 out.1).1.inner.tables)
              kept (presses-Steps presses out.0 out.1 same')
        | inr paid ↦ inr (
            subst (λ t. Paid w.inner.tables t)
              (sym (
                paid-keeps presses out.0 out.1 same'
                  (Paid-HasKey w.inner.tables out.1.inner.tables paid)))
              paid)
      ]

  -- From the moment that the screen shows, with any key, however often the user confirms and tries
  -- again, and whichever requests and replies are lost between the browser, the gateway and
  -- payment-service, the tables of payment-service are those of before, or those after one committed
  -- transfer of the amount on the screen, under the key of the screen.
  pub press_all-pays_once :
      (presses : List Press) (w : Edges g p n)
      → let t' = (press_all g p n resolves props presses (new_screen key) w).1.inner.tables in
        (t' ≡ w.inner.tables) ⊎ Paid w.inner.tables t'
  press_all-pays_once presses w = presses-Steps presses (new_screen key) w refl
