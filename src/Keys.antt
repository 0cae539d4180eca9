-- ===== src/Keys.antt =====
-- packages/types/index.ts: toCamelCase and toSnakeCase. A key is the list of its UTF-16 code units, and
-- no array index; an object is the list of its properties in the order in which they were added.
pub mod RoundTrip
use settlr.Prelude.{
  ℕ, ◌+◌, ◌-◌, ◌≡◌, Bool, true, false, ◌&&◌, ◌||◌, List, [], ◌∷◌, leb, ◌==◌, if◌then◌else◌,
}
use native.Mathlib.Decide.{ℕ_discrete}

-- '_'
abbrev pub underscore : ℕ
underscore = 95

-- [a-z]
abbrev pub is_lower : ℕ → Bool
is_lower c = leb 97 c && leb c 122

-- [A-Z]
abbrev pub is_upper : ℕ → Bool
is_upper c = leb 65 c && leb c 90

-- letter.toUpperCase(), for a match of [a-z].
abbrev pub to_upper_case : ℕ → ℕ
to_upper_case c = c - 32

-- letter.toLowerCase(), for a match of [A-Z].
abbrev pub to_lower_case : ℕ → ℕ
to_lower_case c = c + 32

-- key.replace(/_([a-z])/g, ...): the matches do not overlap and are found from left to right.
unfoldable pub camel_key : List ℕ → List ℕ
camel_key [] = []
camel_key (c ∷ []) = c ∷ []
camel_key (c ∷ d ∷ key) =
    let replaced = to_upper_case d ∷ camel_key key in
    let kept = c ∷ camel_key (d ∷ key) in if (c == underscore) && is_lower d then replaced else kept

-- key.replace(/[A-Z]/g, ...)
unfoldable pub snake_key : List ℕ → List ℕ
snake_key [] = []
snake_key (c ∷ key) =
    let rest = snake_key key in if is_upper c then underscore ∷ to_lower_case c ∷ rest else c ∷ rest

abbrev pub same_key : List ℕ → List ℕ → Bool
same_key [] [] = true
same_key [] (d ∷ l) = false
same_key (c ∷ k) [] = false
same_key (c ∷ k) (d ∷ l) = (c == d) && same_key k l

abbrev pub Object : Type 0 → Type 0
Object V = List (List ℕ × V)

module _ {V : Type 0} where
  abbrev pub has_key : List ℕ → Object V → Bool
  has_key k [] = false
  has_key k ((l, v) ∷ rest) = same_key k l || has_key k rest

  -- result[key] = value
  unfoldable pub put : List ℕ → V → Object V → Object V
  put k v [] = (k, v) ∷ []
  put k v ((l, w) ∷ rest) =
      let others = put k v rest in if same_key k l then (l, v) ∷ rest else (l, w) ∷ others

  -- `for (const [key, value] of Object.entries(row))`, with the keys rewritten.
  abbrev pub rewrite_keys : (List ℕ → List ℕ) → Object V → Object V → Object V
  rewrite_keys f [] result = result
  rewrite_keys f ((k, v) ∷ rest) result = rewrite_keys f rest (put (f k) v result)

  unfoldable pub to_camel_case : Object V → Object V
  to_camel_case row = rewrite_keys camel_key row []

  unfoldable pub to_snake_case : Object V → Object V
  to_snake_case row = rewrite_keys snake_key row []
