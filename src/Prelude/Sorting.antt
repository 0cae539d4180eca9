-- ===== src/Prelude/Sorting.antt =====
-- What sorting, filtering and cutting a list keep.
use Prim.Native.Nat.{ℕ, zero, suc, ◌≤◌}
use mathlib.Core.Path.{◌≡◌, refl, ap, ◌∙◌, sym, subst}
use mathlib.Core.Logic.{inl, inr}
use mathlib.Core.Bool.{Bool, true, false}
use mathlib.Core.List.{List, [], ◌∷◌, ◌++◌, map}
use native.Mathlib.Omega.{arith}
use settlr.Prelude.Tests.{if◌then◌else◌, if-both, Bool-cases}
use settlr.Prelude.Lists.{length, take, drop, keep, insert_by, sort_by, All}

module _ {A : Type 0} (P : A → Type 0) where
  pub All-drop : (n : ℕ) (xs : List A) → All P xs → All P (drop n xs)
  All-drop zero xs h = h
  All-drop (suc n) [] h = tt
  All-drop (suc n) (x ∷ xs) h = All-drop n xs h.1

  All-insert_by :
      (before : A → A → Bool) (x : A) (xs : List A) → P x → All P xs → All P (insert_by before x xs)
  All-insert_by before x [] p h = (p, tt)
  All-insert_by before x (y ∷ ys) p h =
      if-both (All P) (before x y) (p, h) (h.0, All-insert_by before x ys p h.1)

  pub All-sort_by : (before : A → A → Bool) (xs : List A) → All P xs → All P (sort_by before xs)
  All-sort_by before [] h = tt
  All-sort_by before (x ∷ xs) h =
      All-insert_by before x (sort_by before xs) h.0 (All-sort_by before xs h.1)

pub All-passed : {A : Type 0} (p : A → Bool) (xs : List A) → All (λ x. p x ≡ true) (keep p xs)
All-passed p [] = tt
All-passed p (x ∷ xs) =
    let rest = All-passed p xs in
    elim (Bool-cases (p x)) [
      | inl e ↦
          subst (λ b. All (λ y. p y ≡ true) (if b then x ∷ keep p xs else keep p xs)) (sym e)
            (e, rest)
      | inr e ↦
          subst (λ b. All (λ y. p y ≡ true) (if b then x ∷ keep p xs else keep p xs)) (sym e) rest
    ]

pub keep-none : {A : Type 0} (p : A → Bool) (xs : List A) → ((x : A) → p x ≡ false) → keep p xs ≡ []
keep-none p [] h = refl
keep-none p (x ∷ xs) h = ground (arith, h x, keep-none p xs h)

length-insert_by :
    {A : Type 0} (before : A → A → Bool) (x : A) (xs : List A)
    → length (insert_by before x xs) ≡ suc (length xs)
length-insert_by before x [] = refl
length-insert_by before x (y ∷ ys) = ground (arith, length-insert_by before x ys)

pub length-sort_by :
    {A : Type 0} (before : A → A → Bool) (xs : List A) → length (sort_by before xs) ≡ length xs
length-sort_by before [] = refl
length-sort_by before (x ∷ xs) =
    length-insert_by before x (sort_by before xs) ∙ ap suc (length-sort_by before xs)

pub take-all : {A : Type 0} (n : ℕ) (xs : List A) → length xs ≤ n → take n xs ≡ xs
take-all zero [] h = refl
take-all zero (x ∷ xs) h = absurd (omega arith)
take-all (suc n) [] h = refl
take-all (suc n) (x ∷ xs) h = ap (λ ys. x ∷ ys) (take-all n xs (omega arith))

pub map-append :
    {A B : Type 0} (f : A → B) (xs ys : List A) → map f (xs ++ ys) ≡ map f xs ++ map f ys
map-append f [] ys = refl
map-append f (x ∷ xs) ys = ap (λ zs. f x ∷ zs) (map-append f xs ys)
