-- ===== src/Webhook/Dispatcher/Steps.antt =====
-- What an attempt for one delivery keeps of the deliveries table.
use settlr.Prelude.{
  ℕ, zero, suc, ◌-◌, ◌≤◌, ◌≡◌, ◌≢◌, refl, sym, ◌∙◌, Bool, true, false, Option, none, some, List, [],
  ◌∷◌, ◌++◌, All, Each, Each-map, Each-refl, Each-update, update_where, All-map, All-append,
  Each-All, find, eq_iff, get_elem?, arith,
}
use settlr.Errors.{ok}
use settlr.Action.{continue}
use settlr.Webhook.{
  DeliveryStatus, EndpointRow, DeliveryRow, Services, Hooks, IsLossless, answer, counted,
}
use settlr.Webhook.Repository.{is_delivery, mark_failed, inserted}
use settlr.Webhook.Rows.{IsSound, Differs, HasDistinctIds, Agrees, AreCurrent}
use settlr.Webhook.Dispatcher.{retry_delays_seconds, attempt_delivery, retry_to}
use settlr.Webhook.Dispatcher.Attempts.{Transition, attempt_delivery-Moves}

-- What a step for the delivery `d` does to a row.
abbrev pub Keeps : DeliveryRow → DeliveryRow → DeliveryRow → Type 0
Keeps d row row' =
    (row'.id ≡ row.id)
    × (row.id ≢ d.id → row'.attempt_number ≡ row.attempt_number)
    × (Agrees d row → IsSound row → IsSound row')

pub delay-bound : (i delay : ℕ) → get_elem? retry_delays_seconds i ≡ some delay → i ≤ 3
delay-bound zero delay h = omega arith
delay-bound (suc zero) delay h = omega arith
delay-bound (suc (suc zero)) delay h = omega arith
delay-bound (suc (suc (suc zero))) delay h = omega arith
delay-bound (suc (suc (suc (suc i)))) delay h = cc

Transition-Keeps :
    (now : ℕ) (d row row' : DeliveryRow) → Transition now d row row' → Keeps d row row'
Transition-Keeps now d row row' (Transition.stays _) = (refl, λ n. refl, λ a s. s)
Transition-Keeps now d row row' (Transition.delivers _ code e c) = (refl, λ n. refl, λ a s. s)
Transition-Keeps now d row row' (Transition.retries _ delay code e c) = (
  refl,
  λ n. absurd (n e),
  λ a s. (omega (arith, s.0), omega (arith, delay-bound (d.attempt_number - 1) delay c, a e)),
)
Transition-Keeps now d row row' (Transition.fails _ code e c) = (refl, λ n. refl, λ a s. s)

-- The tables between two calls.
abbrev pub AreSound : List DeliveryRow → Type 0
AreSound rows = HasDistinctIds rows × All IsSound rows

Each-Differs :
    (d d' : DeliveryRow) (rows rows' : List DeliveryRow)
    → d'.id ≡ d.id
    → Each (λ x y. y.id ≡ x.id) rows rows'
    → All (Differs d) rows
    → All (Differs d') rows'
Each-Differs d d' rows rows' same e h = Each-All rows rows' (λ x y i n j. n (sym same ∙ j ∙ i)) e h

Each-HasDistinctIds :
    (rows rows' : List DeliveryRow)
    → Each (λ x y. y.id ≡ x.id) rows rows'
    → HasDistinctIds rows
    → HasDistinctIds rows'
Each-HasDistinctIds [] [] e h = tt
Each-HasDistinctIds [] (y ∷ ys) e h = elim e [ ]
Each-HasDistinctIds (x ∷ xs) [] e h = elim e [ ]
Each-HasDistinctIds (x ∷ xs) (y ∷ ys) e h =
    (Each-Differs x y xs ys e.0 e.1 h.0, Each-HasDistinctIds xs ys e.1 h.1)

pub All-both :
    (P Q : DeliveryRow → Type 0) (rows : List DeliveryRow)
    → All P rows
    → All Q rows
    → All (λ row. P row × Q row) rows
All-both P Q [] h k = tt
All-both P Q (row ∷ rows) h k = ((h.0, k.0), All-both P Q rows h.1 k.1)

pub kept-AreSound :
    (d : DeliveryRow) (rows rows' : List DeliveryRow)
    → Each (Keeps d) rows rows'
    → All (Agrees d) rows
    → AreSound rows
    → AreSound rows'
kept-AreSound d rows rows' e a h = (
  Each-HasDistinctIds rows rows' (Each-map rows rows' (λ x y k. k.0) e) h.0,
  Each-All rows rows' (λ x y k b. k.2 b.0 b.1) e (All-both (Agrees d) IsSound rows a h.1),
)

-- A step for one delivery leaves what was read of another as it is.
kept-Agrees :
    (d d' : DeliveryRow) (rows rows' : List DeliveryRow)
    → Differs d d'
    → Each (Keeps d) rows rows'
    → All (Agrees d') rows
    → All (Agrees d') rows'
kept-Agrees d d' rows rows' n e a =
    Each-All rows rows'
      (λ x y k g same. k.1 (λ other. n (sym other ∙ sym k.0 ∙ same)) ∙ g (sym k.0 ∙ same)) e a

pub kept-AreCurrent :
    (d : DeliveryRow) (ds rows rows' : List DeliveryRow)
    → All (Differs d) ds
    → Each (Keeps d) rows rows'
    → AreCurrent rows ds
    → AreCurrent rows' ds
kept-AreCurrent d [] rows rows' n e c = tt
kept-AreCurrent d (d' ∷ ds) rows rows' n e c =
    (kept-Agrees d d' rows rows' n.0 e c.0, kept-AreCurrent d ds rows rows' n.1 e c.1)

pub answered-IsLossless : (v : Services) → ((n : ℕ) → v.answered n ≡ true) → IsLossless v
answered-IsLossless v answered n h = cc (h, answered n)

module _ (v : Services) (lossless : IsLossless v) (now : ℕ) where
  attempt-Keeps :
      (d : DeliveryRow) (endpoint : EndpointRow) (s : Hooks)
      → Each (Keeps d) s.deliveries (attempt_delivery v now d endpoint s).1.deliveries
  attempt-Keeps d endpoint s =
      Each-map s.deliveries (attempt_delivery v now d endpoint s).1.deliveries
        (Transition-Keeps now d) (attempt_delivery-Moves v lossless now d endpoint s)

  pub Keeps-refl : (d row : DeliveryRow) → Keeps d row row
  Keeps-refl d row = (refl, λ n. refl, λ a s. s)

  failed-Keeps :
      (d : DeliveryRow) (s : Hooks)
      → Each (Keeps d) s.deliveries (mark_failed v d.id none s).1.deliveries
  unfolding mark_failed
  failed-Keeps d s = go (v.answered s.statements) (v.applied s.statements) (lossless s.statements)
    where
      go :
          (b c : Bool)
          → (b ≡ false → c ≡ false)
          → Each
              (Keeps d)
              s.deliveries
              (answer {0} b c
                (
                  ok tt,
                  record (counted s) {
                    deliveries =
                        update_where
                          (is_delivery d.id)
                          (λ row. record row {
                            status = DeliveryStatus.failed;
                            response_code = none;
                          })
                          s.deliveries;
                  },
                )
                (counted s)).1.deliveries
      go true c l =
          Each-update (Keeps d) (Keeps-refl d) (is_delivery d.id) _ s.deliveries
            λ row e. (refl, λ n. refl, λ a s. s)
      go false false l = Each-refl (Keeps d) (Keeps-refl d) s.deliveries
      go false true l = cc (l refl)

  pub retry_to-Keeps :
      (d : DeliveryRow) (o : Option EndpointRow) (s : Hooks)
      → Each (Keeps d) s.deliveries (retry_to v now d o s).1.deliveries
  retry_to-Keeps d none s = failed-Keeps d s
  retry_to-Keeps d (some endpoint) s = attempt-Keeps d endpoint s

  pub absent-Differs :
      (d : DeliveryRow) (rows : List DeliveryRow)
      → find (is_delivery d.id) rows ≡ none
      → All (λ row. Differs row d) rows
  absent-Differs d [] h = tt
  absent-Differs d (row ∷ rows) h =
      (λ e. ground (arith, (eq_iff row.id d.id).1 e), absent-Differs d rows (ground arith))

  append-HasDistinctIds :
      (d : DeliveryRow) (rows : List DeliveryRow)
      → All (λ row. Differs row d) rows
      → HasDistinctIds rows
      → HasDistinctIds (rows ++ (d ∷ []))
  append-HasDistinctIds d [] a h = (tt, tt)
  append-HasDistinctIds d (row ∷ rows) a h =
      (All-append (Differs row) rows (d ∷ []) h.0 (a.0, tt), append-HasDistinctIds d rows a.1 h.1)

  -- A first attempt for a row that was just inserted.
  pub first-AreSound :
      (d : DeliveryRow) (endpoint : EndpointRow) (o : Option DeliveryRow) (s : Hooks)
      → find (is_delivery d.id) s.deliveries ≡ o
      → IsSound d
      → AreSound s.deliveries
      → AreSound
          (continue {0, 0}
            (inserted v d o s)
            (λ row. attempt_delivery v now row endpoint)).1.deliveries
  first-AreSound d endpoint (some found) s e sound h = h
  first-AreSound d endpoint none s e sound h =
      let s' = (inserted v d none s).1 in
      let absent = absent-Differs d s.deliveries e in
      kept-AreSound d s'.deliveries (attempt_delivery v now d endpoint s').1.deliveries
        (attempt-Keeps d endpoint s')
        (All-append (Agrees d) s.deliveries (d ∷ [])
          (All-map s.deliveries (λ row n same. absurd (n same)) absent) (λ same. refl, tt))
        (
          append-HasDistinctIds d s.deliveries absent h.0,
          All-append IsSound s.deliveries (d ∷ []) h.1 (sound, tt),
        )
