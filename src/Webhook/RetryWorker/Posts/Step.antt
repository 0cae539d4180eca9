-- ===== src/Webhook/RetryWorker/Posts/Step.antt =====
-- A try for one delivery keeps the POSTs of every delivery within its attempts.
use settlr.Prelude.{
  suc, ◌+◌, ◌≤◌, ◌≡◌, ◌≢◌, refl, sym, ◌∙◌, subst, false, List, [], ◌∷◌, String, same_text, All,
  Each, Each-All, update_where, eq_iff, text-discrete, if◌then◌else◌, arith, inl, inr, Bool-cases,
}
use settlr.Webhook.{DeliveryRow, Hooks}
use settlr.Webhook.Repository.{is_delivery}
use settlr.Webhook.Rows.{Differs}
use settlr.Webhook.Dispatcher.Steps.{All-both}
use settlr.Webhook.RetryWorker.Posts.{posts_to, Fits, Tried}

-- No delivery has the id.
abbrev pub IsUnused : String → List DeliveryRow → Type 0
IsUnused i rows = All (λ row. i ≢ row.id) rows

pub record AreCounted (s : Hooks) : Type 0 where
  pub fit : All (λ row. Fits (posts_to row.id s.posted) row) s.deliveries
  pub unused : (i : String) → IsUnused i s.deliveries → posts_to i s.posted ≡ 0

-- The delivery `d` is in the table, as it was read, and may take one more POST.
pub record IsReady (s : Hooks) (d : DeliveryRow) : Type 0 where
  pub present : ¬ IsUnused d.id s.deliveries
  pub agrees :
      All
        (λ row.
          row.id ≡ d.id
          → (row.attempt_number ≡ d.attempt_number)
            × (suc (posts_to row.id s.posted) ≤ row.attempt_number))
        s.deliveries

not_same : (a b : String) → a ≢ b → same_text a b ≡ false
not_same a b d = elim (Bool-cases (same_text a b)) [
  | inl e ↦ absurd (d ((eq_iff a b).0 e))
  | inr e ↦ e
]

module _ (d : DeliveryRow) (s s' : Hooks) (tried : Tried d s s') where
  open tried use {f, posts, counted, fits}

  -- What is known of a row before the try.
  abbrev IsTried : DeliveryRow → Type 0
  IsTried row =
      (row.id ≡ d.id
        → (row.attempt_number ≡ d.attempt_number)
          × (suc (posts_to row.id s.posted) ≤ row.attempt_number))
      × Fits (posts_to row.id s.posted) row

  -- What the try makes of it.
  abbrev RowStep : DeliveryRow → DeliveryRow → Type 0
  RowStep row row' =
      (row'.id ≡ row.id) × Fits (posts_to row'.id s'.posted) row' × (row.id ≢ d.id → row' ≡ row)

  counted_others : (i : String) → i ≢ d.id → posts_to i s'.posted ≡ posts_to i s.posted
  counted_others i n = rw (counted i, not_same d.id i (λ e. n (sym e))) (omega arith)

  row_step :
      (row : DeliveryRow) → IsTried row → RowStep row (if is_delivery d.id row then f row else row)
  row_step row (ready, fit) = elim (text-discrete row.id d.id) [
    | yes e ↦
        let k = fits (posts_to row.id s.posted) row (ready e).1 fit.1 (ready e).0 in
        let n : posts_to row.id s.posted + posts ≡ posts_to (f row).id s'.posted =
          rw (k.0, counted row.id, (eq_iff d.id row.id).1 (sym e)) refl in
        rw ((eq_iff row.id d.id).1 e) (k.0, subst (λ m. Fits m (f row)) n k.1, λ n. absurd (n e))
    | no n ↦
        rw (not_same row.id d.id n)
          (refl, subst (λ m. Fits m row) (sym (counted_others row.id n)) fit, λ n. refl)
  ]

  rows_step :
      (rows : List DeliveryRow)
      → All IsTried rows
      → Each RowStep rows (update_where (is_delivery d.id) f rows)
  rows_step [] h = tt
  rows_step (row ∷ rows) (h, hs) = (row_step row h, rows_step rows hs)

  IsUnused-before :
      (i : String) (rows rows' : List DeliveryRow)
      → Each RowStep rows rows'
      → IsUnused i rows'
      → IsUnused i rows
  IsUnused-before i [] [] e u = tt
  IsUnused-before i [] (y ∷ ys) e u = elim e [ ]
  IsUnused-before i (x ∷ xs) [] e u = elim e [ ]
  IsUnused-before i (x ∷ xs) (y ∷ ys) (k, e) (n, u) =
      (λ same. n (same ∙ sym k.0), IsUnused-before i xs ys e u)

  module _ (counts : AreCounted s) (ready : IsReady s d) where
    steps : Each RowStep s.deliveries s'.deliveries
    steps =
        rw tried.rows (rows_step s.deliveries (All-both _ _ s.deliveries ready.agrees counts.fit))

    pub Tried-AreCounted : AreCounted s'
    Tried-AreCounted = record {
      fit = Each-All s.deliveries s'.deliveries (λ x y k p. k.1) steps counts.fit;
      unused = λ i u.
          let before = IsUnused-before i s.deliveries s'.deliveries steps u in
          counted_others i (λ e. ready.present (subst (λ j. IsUnused j s.deliveries) e before))
          ∙ counts.unused i before;
    }

    pub Tried-IsReady : (d' : DeliveryRow) → Differs d d' → IsReady s d' → IsReady s' d'
    Tried-IsReady d' n other = record {
      present = λ u. other.present (IsUnused-before d'.id s.deliveries s'.deliveries steps u);
      agrees =
          Each-All s.deliveries s'.deliveries
            (λ x y k p same.
              let same_x : x.id ≡ d'.id = sym k.0 ∙ same in
              let apart : x.id ≢ d.id = λ e. n (sym e ∙ same_x) in
              subst
                (λ z.
                  (z.attempt_number ≡ d'.attempt_number)
                  × (suc (posts_to z.id s'.posted) ≤ z.attempt_number))
                (sym (k.2 apart))
                (
                  (p same_x).0,
                  subst (λ m. suc m ≤ x.attempt_number) (sym (counted_others x.id apart))
                      ((p same_x).1),
                ))
            steps other.agrees;
    }
