-- ===== src/Webhook/Rows.antt =====
-- The webhook_deliveries table: distinct ids, attempt numbers within the schedule, and the lists of
-- rows that are read from it.
use settlr.Prelude.{
  insert_by, sort_by, ℕ, zero, suc, ◌≤◌, ◌≡◌, ◌≢◌, refl, sym, Bool, List, [], ◌∷◌, All, All-take,
  All-keep, All-map, keep, take, if-both,
}
use settlr.Webhook.{DeliveryRow}

-- At most five attempts.
abbrev pub IsSound : DeliveryRow → Type 0
IsSound row = (1 ≤ row.attempt_number) × (row.attempt_number ≤ 5)

abbrev pub Differs : DeliveryRow → DeliveryRow → Type 0
Differs d row = d.id ≢ row.id

-- The primary key: no id occurs twice.
abbrev pub HasDistinctIds : List DeliveryRow → Type 0
HasDistinctIds [] = Unit {0}
HasDistinctIds (row ∷ rows) = All (Differs row) rows × HasDistinctIds rows

-- `d` was read from `row`, or is another delivery.
abbrev pub Agrees : DeliveryRow → DeliveryRow → Type 0
Agrees d row = row.id ≡ d.id → row.attempt_number ≡ d.attempt_number

abbrev pub AreCurrent : List DeliveryRow → List DeliveryRow → Type 0
AreCurrent rows ds = All (λ d. All (Agrees d) rows) ds

current-more :
    (row : DeliveryRow) (ds xs : List DeliveryRow)
    → All (Differs row) ds
    → AreCurrent xs ds
    → AreCurrent (row ∷ xs) ds
current-more row [] xs a c = tt
current-more row (d ∷ ds) xs a c = ((λ e. absurd (a.0 e), c.0), current-more row ds xs a.1 c.1)

-- Rows with distinct ids agree with themselves.
pub rows-AreCurrent : (rows : List DeliveryRow) → HasDistinctIds rows → AreCurrent rows rows
rows-AreCurrent [] h = tt
rows-AreCurrent (row ∷ rows) h = (
  (λ e. refl, All-map rows (λ x d e. absurd (d (sym e))) h.0),
  current-more row rows rows h.0 (rows-AreCurrent rows h.1),
)

module _ (before : DeliveryRow → DeliveryRow → Bool) where
  All-insert :
      (P : DeliveryRow → Type 0) (x : DeliveryRow) (xs : List DeliveryRow)
      → P x
      → All P xs
      → All P (insert_by before x xs)
  All-insert P x [] p h = (p, tt)
  All-insert P x (y ∷ ys) p h = if-both (All P) (before x y) (p, h) (h.0, All-insert P x ys p h.1)

  pub All-sort :
      (P : DeliveryRow → Type 0) (xs : List DeliveryRow) → All P xs → All P (sort_by before xs)
  All-sort P [] h = tt
  All-sort P (x ∷ xs) h = All-insert P x (sort_by before xs) h.0 (All-sort P xs h.1)

  insert-HasDistinctIds :
      (x : DeliveryRow) (xs : List DeliveryRow)
      → All (Differs x) xs
      → HasDistinctIds xs
      → HasDistinctIds (insert_by before x xs)
  insert-HasDistinctIds x [] a h = (tt, tt)
  insert-HasDistinctIds x (y ∷ ys) a h =
      if-both HasDistinctIds (before x y) (a, h)
        (All-insert (Differs y) x ys (λ e. a.0 (sym e)) h.0, insert-HasDistinctIds x ys a.1 h.1)

  pub sort-HasDistinctIds :
      (xs : List DeliveryRow) → HasDistinctIds xs → HasDistinctIds (sort_by before xs)
  sort-HasDistinctIds [] h = tt
  sort-HasDistinctIds (x ∷ xs) h =
      insert-HasDistinctIds x (sort_by before xs) (All-sort (Differs x) xs h.0)
        (sort-HasDistinctIds xs h.1)

pub keep-HasDistinctIds :
    (p : DeliveryRow → Bool) (xs : List DeliveryRow)
    → HasDistinctIds xs
    → HasDistinctIds (keep p xs)
keep-HasDistinctIds p [] h = tt
keep-HasDistinctIds p (x ∷ xs) h =
    let rest = keep-HasDistinctIds p xs h.1 in
    if-both HasDistinctIds (p x) (All-keep (Differs x) p xs h.0, rest) rest

pub take-HasDistinctIds :
    (n : ℕ) (xs : List DeliveryRow) → HasDistinctIds xs → HasDistinctIds (take n xs)
take-HasDistinctIds zero xs h = tt
take-HasDistinctIds (suc n) [] h = tt
take-HasDistinctIds (suc n) (x ∷ xs) h =
    (All-take (Differs x) n xs h.0, take-HasDistinctIds n xs h.1)
