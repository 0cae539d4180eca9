-- ===== src/Ui/SendMoney/Steps.antt =====
-- What the page knows on each step.
use settlr.Prelude.{
  ℕ, ℤ, ◌≤◌, ◌≡◌, refl, sym, subst, Option, none, some, [], ◌∷◌, String, keep, if-both, arith,
}
use settlr.Export.{Text}
use settlr.Ui.SendMoney.{
  Floats, AmountError, AmountForm, empty_form, is_amount_character, split, is_refused, paise_error,
  number_error, amount_error, validated, change_amount, quick_amount, paise_of, submitted, Page,
  handle_select_recipient, handle_amount_submit, submit, Happens, Shows,
}

module _ (x : Floats) where
  -- An amount that the balance covers and that is one rupee at least.
  abbrev pub IsOffer : ℕ → Option ℤ → Type 0
  IsOffer balance amount = (m : ℕ) × (amount ≡ some (ℤ.pos m)) × (100 ≤ m) × (m ≤ balance)

  paise-IsOffer :
      (balance : ℕ) (paise : Option ℤ) → paise_error x balance paise ≡ none → IsOffer balance paise
  paise-IsOffer balance none h = cc
  paise-IsOffer balance (some (ℤ.negsuc m)) h = cc
  paise-IsOffer balance (some (ℤ.pos m)) h = (m, refl, ground arith, ground arith)

  number-IsOffer :
      (balance : ℕ) (amount : Option x.Float)
      → number_error x balance amount ≡ none
      → IsOffer balance (paise_of x amount)
  number-IsOffer balance none h = cc
  number-IsOffer balance (some amount) h =
      paise-IsOffer balance (x.round_hundredfold amount) (ground arith)

  parts-IsOffer :
      (balance : ℕ) (error : Option AmountError) (text note : Text) (amount : Option ℤ)
      → error ≡ amount_error x balance text
      → submitted x (record { amount_rupees = text; note = note; error = error }) ≡ some amount
      → IsOffer balance amount
  unfolding submitted amount_error
  parts-IsOffer balance (some e) text note amount v h = cc
  parts-IsOffer balance none [] note amount v h = cc
  parts-IsOffer balance none (c ∷ text) note amount v h =
      subst (λ a. IsOffer balance a) (found h)
        (number-IsOffer balance (x.parse_float (c ∷ text)) (sym v))
    where
      found : {a b : Option ℤ} → some a ≡ some b → a ≡ b
      found e = cc

  -- What is true of the page on each step: the form's error is that of its text and the balance, and
  -- what Continue hands on is an offer.
  pub record IsPage (page : Page) : Type 0 where
    pub steps : page.current_step ≤ 2
    pub chosen :
        1 ≤ page.current_step → (recipient : String) × (page.selected_recipient ≡ some recipient)
    pub offered : page.current_step ≡ 2 → (m : ℕ) × (page.amount_paise ≡ some (ℤ.pos m)) × (100 ≤ m)
    pub checked : page.form.error ≡ amount_error x page.available_balance page.form.amount_rupees
    pub offers :
        (amount : Option ℤ)
        → submitted x page.form ≡ some amount
        → IsOffer page.available_balance amount

  offers_of :
      (balance : ℕ) (form : AmountForm)
      → form.error ≡ amount_error x balance form.amount_rupees
      → (amount : Option ℤ) → submitted x form ≡ some amount
      → IsOffer balance amount
  offers_of balance form e amount h =
      parts-IsOffer balance form.error form.amount_rupees form.note amount e h

  -- Another text, note or balance, on the step of the form.
  form-IsPage :
      (page : Page) (balance : ℕ) (form : AmountForm)
      → form.error ≡ amount_error x balance form.amount_rupees
      → IsPage page
      → IsPage (record page { available_balance = balance; form = form })
  form-IsPage page balance form e h = record {
    steps = h.steps;
    chosen = h.chosen;
    offered = h.offered;
    checked = e;
    offers = offers_of balance form e;
  }

  change-checked :
      (balance : ℕ) (value : Text) (form : AmountForm)
      → form.error ≡ amount_error x balance form.amount_rupees
      → (change_amount x balance value form).error
        ≡ amount_error x balance (change_amount x balance value form).amount_rupees
  unfolding change_amount
  change-checked balance value form e =
      if-both (λ (f : AmountForm). f.error ≡ amount_error x balance f.amount_rupees)
        (is_refused (split (keep is_amount_character value))) e refl

  empty_checked : (balance : ℕ) → none ≡ amount_error x balance []
  unfolding amount_error
  empty_checked balance = refl

  select-IsPage :
      (recipient : String) (page : Page) → IsPage (handle_select_recipient recipient page)
  unfolding handle_select_recipient
  select-IsPage recipient page = record {
    steps = omega arith;
    chosen = λ h. (recipient, refl);
    offered = λ h. absurd (omega (arith, h));
    checked = empty_checked page.available_balance;
    offers = offers_of page.available_balance empty_form (empty_checked page.available_balance);
  }

  submitted-IsPage :
      (page : Page) (o : Option (Option ℤ))
      → submitted x page.form ≡ o
      → page.current_step ≡ 1
      → IsPage page
      → IsPage
          (elim o [ none ↦ page | some amount ↦ handle_amount_submit amount page.form.note page ])
  submitted-IsPage page none e one h = h
  submitted-IsPage page (some amount) e one h =
      let (m, paid, enough, covered) = h.offers amount e in
      record {
        steps = omega arith;
        chosen = λ _. h.chosen (omega (arith, one));
        offered = λ _. (m, paid, enough);
        checked = empty_checked page.available_balance;
        offers = offers_of page.available_balance empty_form (empty_checked page.available_balance);
      }

  Happens-IsPage : {page page' : Page} → Happens x page page' → IsPage page → IsPage page'
  unfolding submit quick_amount
  Happens-IsPage {page} (Happens.selects recipient e) h = select-IsPage recipient page
  Happens-IsPage {page} (Happens.types value e) h =
      form-IsPage page page.available_balance
        (change_amount x page.available_balance value page.form)
        (change-checked page.available_balance value page.form h.checked) h
  Happens-IsPage {page} (Happens.quick paise e) h =
      form-IsPage page page.available_balance
        (quick_amount x page.available_balance paise page.form) refl h
  Happens-IsPage {page} (Happens.notes note e) h =
      form-IsPage page page.available_balance (record page.form { note = note }) h.checked h
  Happens-IsPage {page} (Happens.fetches balance) h =
      form-IsPage page balance (validated x balance page.form) refl h
  Happens-IsPage {page} (Happens.continues e) h =
      submitted-IsPage page (submitted x page.form) refl e h
  Happens-IsPage {page} (Happens.backs step e) h = record {
    steps = omega (arith, h.steps, e);
    chosen = λ le. h.chosen (omega (arith, e));
    offered = λ two. absurd (omega (arith, two, h.steps, e));
    checked = empty_checked page.available_balance;
    offers = offers_of page.available_balance empty_form (empty_checked page.available_balance);
  }

  -- However the user types, picks a quick amount, continues and goes back, and whenever the balance is
  -- fetched: from the second step on a recipient is selected, on the third step the amount is a whole
  -- number of at least 100 paise, and the Continue button only hands on such an amount that the
  -- balance of the moment covers.
  pub Shows-IsPage : {page : Page} → Shows x page → IsPage page
  Shows-IsPage Shows.opened = record {
    steps = omega arith;
    chosen = λ h. absurd (omega (arith, h));
    offered = λ h. absurd (omega (arith, h));
    checked = empty_checked 0;
    offers = offers_of 0 empty_form (empty_checked 0);
  }
  Shows-IsPage (Shows.then before h) = Happens-IsPage h (Shows-IsPage before)
