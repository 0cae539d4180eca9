-- ===== src/Keys/RoundTrip.antt =====
-- The names of columns and of fields are translated into each other without loss.
use settlr.Prelude.{
  append_nil, append-cons, Bool-cases, inl, inr, ℕ, ◌≡◌, refl, ap, sym, ◌∙◌, subst, Bool, true,
  false, ◌&&◌, ◌||◌, not, List, [], ◌∷◌, ◌++◌, ◌==◌, arith,
}
use settlr.Keys.{
  underscore, is_lower, is_upper, to_upper_case, to_lower_case, camel_key, snake_key, same_key,
  Object, has_key, put, rewrite_keys, to_camel_case, to_snake_case,
}

-- snake_case: no upper case letter, and a lower case letter after each underscore.
abbrev pub is_snake : List ℕ → Bool
is_snake [] = true
is_snake (c ∷ []) = not (is_upper c) && not (c == underscore)
is_snake (c ∷ d ∷ key) =
    not (is_upper c) && (not (c == underscore) || is_lower d) && is_snake (d ∷ key)

is_snake-tail : (c : ℕ) (key : List ℕ) → is_snake (c ∷ key) ≡ true → is_snake key ≡ true
is_snake-tail c [] h = refl
is_snake-tail c (d ∷ key) h = ground arith

-- A letter is put back by the two replacements, and its upper case is one.
letter :
    (d : ℕ)
    → is_lower d ≡ true
    → (is_upper (to_upper_case d) ≡ true) × (to_lower_case (to_upper_case d) ≡ d)
letter d h = ground arith

snake-camel_key : (key : List ℕ) → is_snake key ≡ true → snake_key (camel_key key) ≡ key
unfolding camel_key snake_key
snake-camel_key [] h = refl
snake-camel_key (c ∷ []) h = ground arith
snake-camel_key (c ∷ d ∷ key) h =
    let rest = is_snake-tail c (d ∷ key) h in
    let replaced = snake-camel_key key (is_snake-tail d key rest) in
    let kept = snake-camel_key (d ∷ key) rest in
    elim (Bool-cases ((c == underscore) && is_lower d)) [
      | inl e ↦ ground (arith, e, replaced)
      | inr e ↦ ground (arith, e, kept)
    ]

camel_key-injective :
    (k l : List ℕ) → is_snake k ≡ true → is_snake l ≡ true → camel_key k ≡ camel_key l → k ≡ l
camel_key-injective k l h h' e = sym (snake-camel_key k h) ∙ ap snake_key e ∙ snake-camel_key l h'

same_key-eq : (k l : List ℕ) → same_key k l ≡ true → k ≡ l
same_key-eq [] [] h = refl
same_key-eq [] (d ∷ l) h = cc
same_key-eq (c ∷ k) [] h = cc
same_key-eq (c ∷ k) (d ∷ l) h = elim (Bool-cases (c == d)) [
  | inl e ↦ ground (arith, same_key-eq k l)
  | inr e ↦ absurd (ground arith)
]

same_key_refl : (k : List ℕ) → same_key k k ≡ true
same_key_refl [] = refl
same_key_refl (c ∷ k) = ground (arith, same_key_refl k)

same_key-sym : (k l : List ℕ) → same_key k l ≡ same_key l k
same_key-sym [] [] = refl
same_key-sym [] (d ∷ l) = refl
same_key-sym (c ∷ k) [] = refl
same_key-sym (c ∷ k) (d ∷ l) = ground (arith, same_key-sym k l)

module _ {V : Type 0} where
  unfoldable pub rename : (List ℕ → List ℕ) → Object V → Object V
  rename f [] = []
  rename f ((k, v) ∷ rest) = (f k, v) ∷ rename f rest

  -- No two properties of an object have one key.
  abbrev pub HasUniqueKeys : Object V → Type 0
  HasUniqueKeys [] = Unit {0}
  HasUniqueKeys ((k, v) ∷ rest) = (has_key k rest ≡ false) × HasUniqueKeys rest

  -- Every key is in snake_case.
  abbrev pub HasSnakeKeys : Object V → Type 0
  HasSnakeKeys [] = Unit {0}
  HasSnakeKeys ((k, v) ∷ rest) = (is_snake k ≡ true) × HasSnakeKeys rest

  has_key-append : (k : List ℕ) (a b : Object V) → has_key k (a ++ b) ≡ (has_key k a || has_key k b)
  has_key-append k [] b = refl
  has_key-append k ((l, v) ∷ a) b = ground (arith, has_key-append k a b)

  put-new : (k : List ℕ) (v : V) (o : Object V) → has_key k o ≡ false → put k v o ≡ o ++ (k, v) ∷ []
  unfolding put
  put-new k v [] h = refl
  put-new k v ((l, w) ∷ o) h = ground (arith, put-new k v o)

  -- No key of the first object is one of the second.
  abbrev AreApart : Object V → Object V → Type 0
  AreApart [] o = Unit {0}
  AreApart ((k, v) ∷ rest) o = (has_key k o ≡ false) × AreApart rest o

  AreApart-last :
      (rest o : Object V) (k : List ℕ) (v : V)
      → AreApart rest o
      → has_key k rest ≡ false
      → AreApart rest (o ++ (k, v) ∷ [])
  AreApart-last [] o k v h d = tt
  AreApart-last ((l, w) ∷ rest) o k v h d = (
    ground (arith, h.0, d, has_key-append l o ((k, v) ∷ []), same_key-sym k l),
    AreApart-last rest o k v h.1 (ground (arith, d)),
  )

  AreApart-nil : (o : Object V) → AreApart o []
  AreApart-nil [] = tt
  AreApart-nil (x ∷ o) = (refl, AreApart-nil o)

  -- Keys that stay different are rewritten one by one.
  rewrite_keys-rename :
      (f : List ℕ → List ℕ) (row result : Object V)
      → HasUniqueKeys (rename f row)
      → AreApart (rename f row) result
      → rewrite_keys f row result ≡ result ++ rename f row
  unfolding rename
  rewrite_keys-rename f [] result u a = sym (append_nil result)
  rewrite_keys-rename f ((k, v) ∷ row) result u a =
      ap (rewrite_keys f row) (put-new (f k) v result a.0)
      ∙ rewrite_keys-rename f row (result ++ (f k, v) ∷ []) u.1
          (AreApart-last (rename f row) result (f k) v a.1 u.0)
      ∙ append-cons result (f k, v) (rename f row)

  has_key-camel :
      (k : List ℕ) (row : Object V)
      → is_snake k ≡ true
      → HasSnakeKeys row
      → has_key k row ≡ false
      → has_key (camel_key k) (rename camel_key row) ≡ false
  unfolding rename
  has_key-camel k [] s h d = refl
  has_key-camel k ((l, v) ∷ row) s h d =
      let rest = has_key-camel k row s h.1 (ground (arith, d)) in
      elim (Bool-cases (same_key (camel_key k) (camel_key l))) [
        | inl e ↦
            let same = camel_key-injective k l s h.0 (same_key-eq (camel_key k) (camel_key l) e) in
            absurd (ground (arith, d, subst (λ x. same_key k x ≡ true) same (same_key_refl k)))
        | inr e ↦ ground (arith, e, rest)
      ]

  camel-HasUniqueKeys :
      (row : Object V) → HasSnakeKeys row → HasUniqueKeys row → HasUniqueKeys (rename camel_key row)
  unfolding rename
  camel-HasUniqueKeys [] h u = tt
  camel-HasUniqueKeys ((k, v) ∷ row) h u =
      (has_key-camel k row h.0 h.1 u.0, camel-HasUniqueKeys row h.1 u.1)

  rename-back : (row : Object V) → HasSnakeKeys row → rename snake_key (rename camel_key row) ≡ row
  unfolding rename
  rename-back [] h = refl
  rename-back ((k, v) ∷ row) h = cc (snake-camel_key k h.0, rename-back row h.1)

  -- A row whose column names are in snake_case (no upper case letter, and a lower case letter after
  -- each underscore) and are different from each other is what toSnakeCase makes of what toCamelCase
  -- makes of it, and toCamelCase keeps the number and the order of its properties: it only rewrites
  -- their names.
  pub to_snake_case-to_camel_case :
      (row : Object V)
      → HasSnakeKeys row
      → HasUniqueKeys row
      → (to_snake_case (to_camel_case row) ≡ row) × (to_camel_case row ≡ rename camel_key row)
  unfolding to_snake_case to_camel_case
  to_snake_case-to_camel_case row h u =
      let renamed =
        rewrite_keys-rename camel_key row [] (camel-HasUniqueKeys row h u)
          (AreApart-nil (rename camel_key row)) in
      let back = rename-back row h in
      (
        ap (λ o. rewrite_keys snake_key o []) renamed
            ∙ rewrite_keys-rename snake_key (rename camel_key row) []
                (subst HasUniqueKeys (sym back) u) (AreApart-nil _)
            ∙ back,
        renamed,
      )
