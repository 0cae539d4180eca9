-- ===== src/Prelude/Lists.antt =====
-- Lists measured by the native numbers, and the list operations that the tables are read by.
use Prim.Native.Nat.{ℕ, zero, suc, ◌+◌, ◌-◌, min}
use mathlib.Core.Path.{◌≡◌, refl, ap}
use mathlib.Core.Bool.{Bool, true, false}
use mathlib.Core.List.{List, [], ◌∷◌, ◌++◌}
use mathlib.Core.Option.{Option, none, some}
use native.Mathlib.Omega.{arith}
use settlr.Prelude.Tests.{if◌then◌else◌, if-both}

module _ {ℓ} {A : Type ℓ} where
  abbrev pub length : List A → ℕ
  length [] = 0
  length (x ∷ xs) = suc (length xs)

  abbrev pub get_elem? : List A → ℕ → Option A
  get_elem? [] i = none
  get_elem? (x ∷ xs) zero = some x
  get_elem? (x ∷ xs) (suc i) = get_elem? xs i

  abbrev pub take : ℕ → List A → List A
  take zero xs = []
  take (suc n) [] = []
  take (suc n) (x ∷ xs) = x ∷ take n xs

  abbrev pub drop : ℕ → List A → List A
  drop zero xs = xs
  drop (suc n) [] = []
  drop (suc n) (x ∷ xs) = drop n xs

  -- The first element that passes a test.
  abbrev pub find : (A → Bool) → List A → Option A
  find p [] = none
  find p (x ∷ xs) = if p x then some x else find p xs

  -- The elements that pass a test, in order.
  abbrev pub keep : (A → Bool) → List A → List A
  keep p [] = []
  keep p (x ∷ xs) = if p x then x ∷ keep p xs else keep p xs

  -- Each element that passes a test is replaced.
  abbrev pub update_where : (A → Bool) → (A → A) → List A → List A
  update_where p f [] = []
  update_where p f (x ∷ xs) = (if p x then f x else x) ∷ update_where p f xs

  abbrev pub count_where : (A → Bool) → List A → ℕ
  count_where p [] = 0
  count_where p (x ∷ xs) = let rest = count_where p xs in if p x then suc rest else rest

  abbrev pub sum_by : (A → ℕ) → List A → ℕ
  sum_by f [] = 0
  sum_by f (x ∷ xs) = f x + sum_by f xs

  pub append_nil : (a : List A) → a ++ [] ≡ a
  append_nil [] = refl
  append_nil (x ∷ a) = ap (λ xs. x ∷ xs) (append_nil a)

  pub append_assoc : (a b c : List A) → (a ++ b) ++ c ≡ a ++ (b ++ c)
  append_assoc [] b c = refl
  append_assoc (x ∷ a) b c = ap (λ xs. x ∷ xs) (append_assoc a b c)

  pub append-cons : (a : List A) (x : A) (b : List A) → (a ++ x ∷ []) ++ b ≡ a ++ x ∷ b
  append-cons [] x b = refl
  append-cons (y ∷ a) x b = ap (λ xs. y ∷ xs) (append-cons a x b)

  pub length-append : (xs ys : List A) → length (xs ++ ys) ≡ length xs + length ys
  length-append [] ys = omega arith
  length-append (x ∷ xs) ys = omega (arith, length-append xs ys)

  pub length-take : (n : ℕ) (xs : List A) → length (take n xs) ≡ min n (length xs)
  length-take zero xs = omega arith
  length-take (suc n) [] = omega arith
  length-take (suc n) (x ∷ xs) = omega (arith, length-take n xs)

  pub length-drop : (n : ℕ) (xs : List A) → length (drop n xs) ≡ length xs - n
  length-drop zero xs = omega arith
  length-drop (suc n) [] = omega arith
  length-drop (suc n) (x ∷ xs) = omega (arith, length-drop n xs)

  pub sum_by-append : (f : A → ℕ) (xs ys : List A) → sum_by f (xs ++ ys) ≡ sum_by f xs + sum_by f ys
  sum_by-append f [] ys = omega arith
  sum_by-append f (x ∷ xs) ys = omega (arith, sum_by-append f xs ys)

-- Insertion sort by a test that an element comes before another.
abbrev pub insert_by {ℓ} : {A : Type ℓ} → (A → A → Bool) → A → List A → List A
insert_by before x [] = x ∷ []
insert_by before x (y ∷ ys) =
    let rest = insert_by before x ys in if before x y then x ∷ y ∷ ys else y ∷ rest

abbrev pub sort_by {ℓ} : {A : Type ℓ} → (A → A → Bool) → List A → List A
sort_by before [] = []
sort_by before (x ∷ xs) = insert_by before x (sort_by before xs)

-- Two lists of one length whose elements are related in turn.
abbrev pub Each {ℓ} : {A : Type ℓ} → (A → A → Type 0) → List A → List A → Type 0
Each R [] [] = Unit {0}
Each R [] (y ∷ ys) = ⊥
Each R (x ∷ xs) [] = ⊥
Each R (x ∷ xs) (y ∷ ys) = R x y × Each R xs ys

-- A property of every element.
abbrev pub All {ℓ} : {A : Type ℓ} → (A → Type 0) → List A → Type 0
All P [] = Unit {0}
All P (x ∷ xs) = P x × All P xs

module _ {ℓ} {A : Type ℓ} (R : A → A → Type 0) (refl_R : (x : A) → R x x) where
  pub Each-refl : (xs : List A) → Each R xs xs
  Each-refl [] = tt
  Each-refl (x ∷ xs) = (refl_R x, Each-refl xs)

  pub Each-update :
      (p : A → Bool) (f : A → A) (xs : List A)
      → ((x : A) → p x ≡ true → R x (f x))
      → Each R xs (update_where p f xs)
  Each-update p f [] h = tt
  Each-update p f (x ∷ xs) h = (go (p x) refl, Each-update p f xs h)
    where
      go : (b : Bool) → p x ≡ b → R x (if b then f x else x)
      go true e = h x e
      go false e = refl_R x

module _ {ℓ} {A : Type ℓ} (P : A → Type 0) where
  pub All-append : (xs ys : List A) → All P xs → All P ys → All P (xs ++ ys)
  All-append [] ys h k = k
  All-append (x ∷ xs) ys h k = (h.0, All-append xs ys h.1 k)

  pub All-take : (n : ℕ) (xs : List A) → All P xs → All P (take n xs)
  All-take zero xs h = tt
  All-take (suc n) [] h = tt
  All-take (suc n) (x ∷ xs) h = (h.0, All-take n xs h.1)

  pub All-keep : (p : A → Bool) (xs : List A) → All P xs → All P (keep p xs)
  All-keep p [] h = tt
  All-keep p (x ∷ xs) h = let rest = All-keep p xs h.1 in if-both (All P) (p x) (h.0, rest) rest

module _ {ℓ} {A : Type ℓ} where
  pub All-map : {P Q : A → Type 0} (xs : List A) → ((x : A) → P x → Q x) → All P xs → All Q xs
  All-map [] f h = tt
  All-map (x ∷ xs) f h = (f x h.0, All-map xs f h.1)

  -- What related elements carry over.
  pub Each-All :
      {R : A → A → Type 0} {P Q : A → Type 0} (xs ys : List A)
      → ((x y : A) → R x y → P x → Q y)
      → Each R xs ys
      → All P xs
      → All Q ys
  Each-All [] [] f e h = tt
  Each-All [] (y ∷ ys) f e h = elim e [ ]
  Each-All (x ∷ xs) [] f e h = elim e [ ]
  Each-All (x ∷ xs) (y ∷ ys) f e h = (f x y e.0 h.0, Each-All xs ys f e.1 h.1)

  pub Each-map :
      {R Q : A → A → Type 0} (xs ys : List A)
      → ((x y : A) → R x y → Q x y)
      → Each R xs ys
      → Each Q xs ys
  Each-map [] [] f e = tt
  Each-map [] (y ∷ ys) f e = elim e [ ]
  Each-map (x ∷ xs) [] f e = elim e [ ]
  Each-map (x ∷ xs) (y ∷ ys) f e = (f x y e.0, Each-map xs ys f e.1)

  -- The element that is found, updated.
  pub find-update :
      (p : A → Bool) (f : A → A) (xs : List A) (x : A)
      → ((y : A) → p (f y) ≡ p y)
      → find p xs ≡ some x
      → find p (update_where p f xs) ≡ some (f x)
  find-update p f [] x same h = cc
  find-update p f (y ∷ ys) x same h = ground (arith, same y, find-update p f ys x same)
