-- ===== src/Ui/SendMoney.antt =====
-- settlr-ui/src/pages/SendMoneyPage.tsx and components/sendmoney/AmountInput.tsx: the three steps of
-- sending money up to the confirmation. A text is the list of its UTF-16 code units. The directions of
-- the animations and what is only shown are left out.
pub mod Steps
use settlr.Prelude.{
  ℕ, ℤ, suc, Bool, true, false, ◌&&◌, ◌||◌, not, Option, none, some, List, [], ◌∷◌, ◌≡◌, String,
  ltb, leb, ◌==◌, length, keep, if◌then◌else◌,
}
use settlr.Export.{Text}

-- JavaScript's numbers, infinities included: parseFloat, which is `none` for NaN, whether a number is
-- greater than 0, Math.round(x * 100), which is `none` for an infinity, and (paise / 100).toFixed(2).
pub record Floats : Type 1 where
  pub Float : Type 0
  pub parse_float : Text → Option Float
  pub is_positive : Float → Bool
  pub round_hundredfold : Float → Option ℤ
  pub fixed : ℕ → Text

-- The errors of AmountInput, for their texts.
pub data AmountError : Type 0 where
  enter_valid_amount insufficient_balance minimum_amount : AmountError

pub record AmountForm : Type 0 where
  pub amount_rupees : Text
  pub note : Text
  pub error : Option AmountError

abbrev pub empty_form : AmountForm
empty_form = record { amount_rupees = []; note = []; error = none }

-- '.'
abbrev pub dot : ℕ
dot = 46

-- [0-9.]
abbrev pub is_amount_character : ℕ → Bool
is_amount_character c = (leb 48 c && leb c 57) || (c == dot)

abbrev pub onto_first : ℕ → List Text → List Text
onto_first c [] = (c ∷ []) ∷ []
onto_first c (part ∷ parts) = (c ∷ part) ∷ parts

-- value.split('.')
unfoldable pub split : Text → List Text
split [] = [] ∷ []
split (c ∷ text) = let rest = split text in if c == dot then [] ∷ rest else onto_first c rest

-- parts.length > 2 and parts[1]?.length > 2
abbrev pub is_refused : List Text → Bool
is_refused [] = false
is_refused (whole ∷ []) = false
is_refused (whole ∷ decimals ∷ []) = ltb 2 (length decimals)
is_refused (whole ∷ decimals ∷ more ∷ parts) = true

module _ (x : Floats) where
  abbrev pub paise_error : ℕ → Option ℤ → Option AmountError
  paise_error balance none = some AmountError.insufficient_balance
  paise_error balance (some (ℤ.negsuc m)) = some AmountError.minimum_amount
  paise_error balance (some (ℤ.pos m)) =
      if ltb balance m
      then some AmountError.insufficient_balance
      else if ltb m 100
      then some AmountError.minimum_amount
      else none

  abbrev pub number_error : ℕ → Option x.Float → Option AmountError
  number_error balance none = some AmountError.enter_valid_amount
  number_error balance (some amount) =
      if not (x.is_positive amount)
      then some AmountError.enter_valid_amount
      else paise_error balance (x.round_hundredfold amount)

  -- The effect that validates the amount.
  unfoldable pub amount_error : ℕ → Text → Option AmountError
  amount_error balance [] = none
  amount_error balance (c ∷ text) = number_error balance (x.parse_float (c ∷ text))

  -- The effect runs after every change of the text or of the balance.
  abbrev pub validated : ℕ → AmountForm → AmountForm
  validated balance form = record form { error = amount_error balance form.amount_rupees }

  -- onChange
  unfoldable pub change_amount : ℕ → Text → AmountForm → AmountForm
  change_amount balance value form =
      let text = keep is_amount_character value in
      if is_refused (split text)
      then form
      else validated balance (record form { amount_rupees = text })

  -- handleQuickAmount
  unfoldable pub quick_amount : ℕ → ℕ → AmountForm → AmountForm
  quick_amount balance paise form =
      validated balance (record form { amount_rupees = x.fixed paise })

  abbrev pub paise_of : Option x.Float → Option ℤ
  paise_of none = none
  paise_of (some amount) = x.round_hundredfold amount

  -- handleSubmit: the amount that is handed on, `none` where the handler returns early.
  unfoldable pub submitted : AmountForm → Option (Option ℤ)
  submitted form = elim form.error [
    | some e ↦ none
    | none ↦ elim form.amount_rupees [
      | [] ↦ none
      | c ∷ text ↦ some (paise_of (x.parse_float (c ∷ text)))
    ]
  ]

-- The state of SendMoneyPage, with the form of the AmountInput that it shows, and the balance of the
-- first account as it was last fetched (0 before that).
pub record Page : Type 0 where
  pub current_step : ℕ
  pub selected_recipient : Option String
  pub amount_paise : Option ℤ
  pub purpose : Text
  pub available_balance : ℕ
  pub form : AmountForm

abbrev pub first_page : Page
first_page = record {
  current_step = 0;
  selected_recipient = none;
  amount_paise = some (ℤ.pos 0);
  purpose = [];
  available_balance = 0;
  form = empty_form;
}

-- goToStep: each step is a new component.
abbrev pub go_to_step : ℕ → Page → Page
go_to_step step page = record page { current_step = step; form = empty_form }

unfoldable pub handle_select_recipient : String → Page → Page
handle_select_recipient recipient page =
    go_to_step 1 (record page { selected_recipient = some recipient })

abbrev pub handle_amount_submit : Option ℤ → Text → Page → Page
handle_amount_submit amount note page =
    go_to_step 2 (record page { amount_paise = amount; purpose = note })

module _ (x : Floats) where
  -- The Continue button
  unfoldable pub submit : Page → Page
  submit page = elim (submitted x page.form) [
    | none ↦ page
    | some amount ↦ handle_amount_submit amount page.form.note page
  ]

  -- What may happen, and on which step.
  pub data Happens (page : Page) : Page → Type 0 where
    selects :
        (recipient : String)
        → page.current_step ≡ 0
        → Happens page (handle_select_recipient recipient page)
    types :
        (value : Text)
        → page.current_step ≡ 1
        → Happens page
            (record page { form = change_amount x page.available_balance value page.form })
    quick :
        (paise : ℕ)
        → page.current_step ≡ 1
        → Happens page
            (record page { form = quick_amount x page.available_balance paise page.form })
    notes :
        (note : Text)
        → page.current_step ≡ 1
        → Happens page (record page { form = record page.form { note = note } })
    fetches :
        (balance : ℕ)
        → Happens page
            (record page { available_balance = balance; form = validated x balance page.form })
    continues : page.current_step ≡ 1 → Happens page (submit page)
    backs : (step : ℕ) → page.current_step ≡ suc step → Happens page (go_to_step step page)

  pub data Shows : Page → Type 0 where
    opened : Shows first_page
    then : {page page' : Page} → Shows page → Happens page page' → Shows page'
