-- ===== src/Action.antt =====
-- Code that reads and writes a state and may throw: the state that was reached is kept when it
-- throws. `try_finally` and `try_catch` are the statements of the source.
use settlr.Prelude.{Bool, true, false, Option, none, some}
use settlr.Errors.{Error, Result, ok, err}

abbrev pub Action {ℓ} : Type 0 → Type ℓ → Type ℓ
Action S A = S → Result A × S

module _ {ℓ} {S : Type 0} {A : Type ℓ} where
  abbrev pub pure : A → Action S A
  pure a s = (ok a, s)

  abbrev pub throw : Error → Action S A
  throw e s = (err e, s)

  abbrev pub continue {κ} : {B : Type κ} → Result A × S → (A → Action S B) → Result B × S
  continue (ok a, s) f = f a s
  continue (err e, s) f = (err e, s)

infixl 5 ◌>>=◌ ◌>>◌
abbrev pub ◌>>=◌ {ℓ κ} :
    {S : Type 0} {A : Type ℓ} {B : Type κ} → Action S A → (A → Action S B) → Action S B
◌>>=◌ m f s = continue (m s) f

abbrev pub ◌>>◌ {ℓ κ} :
    {S : Type 0} {A : Type ℓ} {B : Type κ} → Action S A → Action S B → Action S B
m >> k = m >>= λ _. k

-- `if (test) throw e;`
abbrev pub throw_if : {S : Type 0} → Bool → Error → Action S (Unit {0})
throw_if true e = throw e
throw_if false e = pure tt

-- `if (!value) throw e;`
abbrev pub or_throw {ℓ} : {S : Type 0} {A : Type ℓ} → Option A → Error → Action S A
or_throw (some a) e = pure a
or_throw none e = throw e

module _ {ℓ} {S : Type 0} {A : Type ℓ} where
  abbrev pub handle : Result A × S → (Error → Action S A) → Result A × S
  handle (ok a, s) h = (ok a, s)
  handle (err e, s) h = h e s

  abbrev pub try_catch : Action S A → (Error → Action S A) → Action S A
  try_catch m h s = handle (m s) h

  abbrev pub after : Result A → Result (Unit {0}) × S → Result A × S
  after r (ok _, s) = (r, s)
  after r (err e, s) = (err e, s)

  abbrev pub conclude : Result A × S → Action S (Unit {0}) → Result A × S
  conclude (r, s) c = after r (c s)

  -- An error of the last block replaces the result.
  abbrev pub try_finally : Action S A → Action S (Unit {0}) → Action S A
  try_finally m c s = conclude (m s) c

-- An action whose error is only logged.
abbrev pub settle : {S : Type 0} → Action S (Unit {0}) → Action S (Unit {0})
settle m s = (ok tt, (m s).1)
