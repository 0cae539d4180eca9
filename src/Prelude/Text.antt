-- ===== src/Prelude/Text.antt =====
-- The comparison of texts: equality as a test, and the order that `sort` uses.
use Prim.Native.Nat.{ℕ, zero, suc, Ordering, compare as compare_ℕ}
use Prim.Native.Nat.compare as compare_ℕ
use Prim.Native.Char.{code}
use Prim.Native.String.{String, compare, then}
use Prim.Native.String.compare
use mathlib.Core.Path.{◌≡◌, refl}
use mathlib.Core.Logic.{◌⊎◌, inl, inr}
use mathlib.Core.Bool.{Bool, true, false, ◌||◌}
use text.Mathlib.Text.{◌==◌ as str_eq, is_le}
use text.Mathlib.TextEquality.{eq_iff, path_by_compare}
use mathlib.Core.List.{List, [], ◌∷◌}
use settlr.Prelude.Tests.{Bool-cases}

-- `a === b` on texts.
abbrev pub same_text : String → String → Bool
same_text a b = str_eq a b

-- `a <= b` on texts, the order of `Array.prototype.sort`.
abbrev pub text_le : String → String → Bool
text_le a b = is_le (compare a b)

-- Whether a text is one of a list.
abbrev pub has : String → List String → Bool
has x [] = false
has x (y ∷ ys) = same_text y x || has x ys

abbrev flip : Ordering → Ordering
flip Ordering.lt = Ordering.gt
flip Ordering.eq = Ordering.eq
flip Ordering.gt = Ordering.lt

compare_ℕ-flip : (m n : ℕ) → compare_ℕ m n ≡ flip (compare_ℕ n m)
compare_ℕ-flip zero zero = refl
compare_ℕ-flip zero (suc n) = simp (compare_ℕ.zero-suc, compare_ℕ.suc-zero)
compare_ℕ-flip (suc m) zero = simp (compare_ℕ.zero-suc, compare_ℕ.suc-zero)
compare_ℕ-flip (suc m) (suc n) = simp compare_ℕ.suc-suc (compare_ℕ-flip m n)

then-flip : (o p : Ordering) → then (flip o) (flip p) ≡ flip (then o p)
then-flip Ordering.lt p = refl
then-flip Ordering.eq p = refl
then-flip Ordering.gt p = refl

compare-flip : (s t : String) → compare s t ≡ flip (compare t s)
compare-flip String.[] String.[] = refl
compare-flip String.[] (String.◌∷◌ d t) = simp (compare.nil-cons, compare.cons-nil)
compare-flip (String.◌∷◌ c s) String.[] = simp (compare.nil-cons, compare.cons-nil)
compare-flip (String.◌∷◌ c s) (String.◌∷◌ d t) = simp compare.cons-cons (
    rw (compare_ℕ-flip (code c) (code d), compare-flip s t)
      (then-flip (compare_ℕ (code d) (code c)) (compare t s)))

-- The order on texts is total.
le-flip : (o : Ordering) → (is_le o ≡ true) ⊎ (is_le (flip o) ≡ true)
le-flip Ordering.lt = inl refl
le-flip Ordering.eq = inl refl
le-flip Ordering.gt = inr refl

pub text_le_total : (s t : String) → (text_le s t ≡ true) ⊎ (text_le t s ≡ true)
text_le_total s t = rw (compare-flip t s) (le-flip (compare s t))

le-flip_eq : (o : Ordering) → is_le o ≡ true → is_le (flip o) ≡ true → o ≡ Ordering.eq
le-flip_eq Ordering.lt h k = cc
le-flip_eq Ordering.eq h k = refl
le-flip_eq Ordering.gt h k = cc

pub text_le_antisymm : (s t : String) → text_le s t ≡ true → text_le t s ≡ true → s ≡ t
text_le_antisymm s t h k =
    path_by_compare s t (le-flip_eq (compare s t) h (rw (compare-flip t s) at k))

unfoldable pub text-discrete : Discrete String
unfolding Bool-cases
text-discrete s t = elim (Bool-cases (same_text s t)) [
  | inl e ↦ yes ((eq_iff s t).0 e)
  | inr d ↦ no (λ p. ne_of_false (d) ((eq_iff s t).1 p))
]
  where
    ne_of_false : {b : Bool} → b ≡ false → b ≡ true → ⊥
    ne_of_false h k = cc
