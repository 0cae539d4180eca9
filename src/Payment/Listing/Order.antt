-- ===== src/Payment/Listing/Order.antt =====
-- ORDER BY created_at DESC of rows that were found in any order.
use native.Mathlib.Omega.{arith}
use mathlib.Core.List.{Permᴰ}
use settlr.Prelude.{
  ℕ, ◌≡◌, ◌≢◌, refl, sym, ap, ◌∙◌, subst, Bool, List, [], ◌∷◌, All, insert_by, sort_by, leb,
}

module _ {A : Type 0} (key : A → ℕ) where
  abbrev newest : A → A → Bool
  newest a b = leb (key b) (key a)

  -- Two rows in either order.
  insert-insert :
      (a b : A) (l : List A)
      → key a ≢ key b
      → insert_by newest a (insert_by newest b l) ≡ insert_by newest b (insert_by newest a l)
  insert-insert a b [] d = ground arith
  insert-insert a b (y ∷ ys) d = let rest = insert-insert a b ys d in ground arith

  abbrev pub DiffersIn : A → A → Type 0
  DiffersIn a b = key a ≢ key b

  -- No two keys are equal.
  abbrev pub HasDistinctKeys : List A → Type 0
  HasDistinctKeys [] = Unit {0}
  HasDistinctKeys (x ∷ xs) = All (DiffersIn x) xs × HasDistinctKeys xs

  pub Perm-All : (P : A → Type 0) {xs ys : List A} → Permᴰ xs ys → All P xs → All P ys
  Perm-All P Permᴰ.nil h = tt
  Perm-All P (Permᴰ.cons e p) h = (subst P e h.0, Perm-All P p h.1)
  Perm-All P (Permᴰ.swap e f) h = (subst P f h.1.0, (subst P e h.0, h.1.1))
  Perm-All P (Permᴰ.trans p q) h = Perm-All P q (Perm-All P p h)

  Perm-HasDistinctKeys : {xs ys : List A} → Permᴰ xs ys → HasDistinctKeys xs → HasDistinctKeys ys
  Perm-HasDistinctKeys Permᴰ.nil h = tt
  Perm-HasDistinctKeys (Permᴰ.cons {a = a} {b = b} {l₂ = l} e p) h = (
    subst (λ x. All (DiffersIn x) l) e (Perm-All (DiffersIn a) p h.0),
    Perm-HasDistinctKeys p h.1,
  )
  Perm-HasDistinctKeys (Permᴰ.swap {a = a} {b = b} {l = l} e f) h = (
    (rw (sym e, sym f) (λ x. h.0.0 (sym x)), subst (λ x. All (DiffersIn x) l) f h.1.0),
    (subst (λ x. All (DiffersIn x) l) e h.0.1, h.1.1),
  )
  Perm-HasDistinctKeys (Permᴰ.trans p q) h = Perm-HasDistinctKeys q (Perm-HasDistinctKeys p h)

  pub sort-Perm :
      {xs ys : List A} → Permᴰ xs ys → HasDistinctKeys xs → sort_by newest xs ≡ sort_by newest ys
  sort-Perm Permᴰ.nil h = refl
  sort-Perm (Permᴰ.cons {a = a} {b = b} {l₁ = l} e p) h =
      rw (sym e) (ap (insert_by newest a) (sort-Perm p h.1))
  sort-Perm (Permᴰ.swap {a = a} {b = b} {l = l} e f) h =
      rw (sym e, sym f) (insert-insert a b (sort_by newest l) h.0.0)
  sort-Perm (Permᴰ.trans p q) h = sort-Perm p h ∙ sort-Perm q (Perm-HasDistinctKeys p h)
