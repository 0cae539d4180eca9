-- ===== src/Tests/SendMoney.antt =====
-- A user who sends 150 rupees.
use settlr.Prelude.{none, ℕ, ℤ, ◌*◌, ◌≡◌, refl, List, [], ◌∷◌, length, some, ltb}
use settlr.Export.{codes}
use settlr.Ui.Recipients.{RecentTransaction, add_all, recent_recipients}
use settlr.Ui.SendMoney.{
  Floats, Page, first_page, handle_select_recipient, validated, change_amount, amount_error, split,
  submitted, submit, Happens, Shows,
}
use settlr.Ui.SendMoney.Steps.{IsPage, Shows-IsPage}

-- Numbers without a fraction, and a text that is one of them.
abbrev floats : Floats
floats = record {
  Float = ℕ;
  parse_float = λ text. some 150;
  is_positive = ltb 0;
  round_hundredfold = λ amount. some (ℤ.pos (amount * 100));
  fixed = λ paise. codes "100.00";
}

abbrev chosen : Page
chosen = handle_select_recipient "b" first_page

abbrev fetched : Page
fetched = record chosen { available_balance = 20000; form = validated floats 20000 chosen.form }

abbrev typed : Page
typed = record fetched { form = change_amount floats 20000 (codes "150") fetched.form }

Shows-last : Shows floats (submit floats typed)
unfolding handle_select_recipient
Shows-last =
    Shows.then
      (Shows.then
        (Shows.then (Shows.then Shows.opened (Happens.selects "b" refl)) (Happens.fetches 20000))
        (Happens.types (codes "150") refl))
      (Happens.continues refl)

Shows-IsPage_example : IsPage floats (submit floats typed)
Shows-IsPage_example = Shows-IsPage floats Shows-last

last_step :
    ((submit floats typed).current_step ≡ 2)
    × ((submit floats typed).amount_paise ≡ some (ℤ.pos 15000))
unfolding submit submitted change_amount amount_error split handle_select_recipient
last_step = (refl, refl)

-- Two transactions of the account "a" with one other side, and one without a name.
abbrev recent : List RecentTransaction
recent =
    record {
      from_account_id = "a";
      to_account_id = "b";
      from_user_name = some "Asha";
      to_user_name = some "Bina";
      created_at = "today";
    }
    ∷ record {
      from_account_id = "b";
      to_account_id = "a";
      from_user_name = some "Bina";
      to_user_name = some "Asha";
      created_at = "yesterday";
    }
    ∷ record {
      from_account_id = "c";
      to_account_id = "a";
      from_user_name = none;
      to_user_name = some "Asha";
      created_at = "yesterday";
    }
    ∷ []

one_recent : length (recent_recipients (λ date. date) (λ text. 0) (some "a") recent) ≡ 1
unfolding recent_recipients add_all
one_recent = refl
