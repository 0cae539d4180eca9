-- ===== src/Export.antt =====
-- settlr-ui/src/lib/export.ts: the text of exportToCSV. A text is the list of its characters. The
-- download of the text through the browser is left out; the formatters of dates and numbers are
-- those of the browser.
pub mod Csv
use Prim.Native.Char.{code}
use settlr.Prelude.{
  ℕ, ◌/◌, ◌≡◌, Bool, true, false, List, [], ◌∷◌, ◌++◌, map, String, Option, none, some, same_text,
  ◌==◌, if◌then◌else◌,
}

abbrev pub Text : Type 0
Text = List ℕ

abbrev pub codes : String → Text
codes String.[] = []
codes (String.◌∷◌ c s) = code c ∷ codes s

-- The characters " , and \n
abbrev pub quote : ℕ
quote = 34

abbrev pub comma : ℕ
comma = 44

abbrev pub line_feed : ℕ
line_feed = 10

-- What is exported of a transaction (types/index.ts); `status` is one of five words.
pub record UiTransaction : Type 0 where
  pub id : Text
  pub from_account_id : Text
  pub to_account_id : Text
  pub from_user_name : Option Text
  pub to_user_name : Option Text
  pub amount : ℕ
  pub currency : Text
  pub status : Text
  pub fraud_score : Option ℕ
  pub description : Option Text
  pub created_at : Text

-- formatDate(new Date(text)), (paise / 100).toFixed(2) and toString of a number.
pub record Formats : Type 0 where
  pub format_date : Text → Text
  pub to_fixed : ℕ → Text
  pub to_string : ℕ → Text

-- value || fallback
abbrev pub or_else : Option Text → Text → Text
or_else none fallback = fallback
or_else (some []) fallback = fallback
or_else (some (c ∷ cs)) fallback = c ∷ cs

abbrev pub score_text : Formats → Option ℕ → Option Text
score_text f none = none
score_text f (some n) = some (f.to_string n)

abbrev pub headers : List Text
headers =
    codes "Transaction ID"
    ∷ codes "Date"
    ∷ codes "From"
    ∷ codes "To"
    ∷ codes "Amount"
    ∷ codes "Currency"
    ∷ codes "Status"
    ∷ codes "Fraud Score"
    ∷ codes "Description"
    ∷ []

-- The cells of a row.
abbrev pub cells : Formats → UiTransaction → List Text
cells f txn =
    txn.id
    ∷ f.format_date txn.created_at
    ∷ or_else txn.from_user_name txn.from_account_id
    ∷ or_else txn.to_user_name txn.to_account_id
    ∷ f.to_fixed txn.amount
    ∷ txn.currency
    ∷ txn.status
    ∷ or_else (score_text f txn.fraud_score) (codes "N/A")
    ∷ or_else txn.description []
    ∷ []

-- parts.join(separator)
abbrev pub join : ℕ → List Text → Text
join separator [] = []
join separator (x ∷ []) = x
join separator (x ∷ y ∷ xs) = x ++ separator ∷ join separator (y ∷ xs)

-- cell.replace(/"/g, '""')
unfoldable pub double_quotes : Text → Text
double_quotes [] = []
double_quotes (c ∷ cs) =
    let rest = double_quotes cs in if c == quote then quote ∷ quote ∷ rest else c ∷ rest

-- `"${...}"`
unfoldable pub quoted_cell : Text → Text
quoted_cell cell = quote ∷ double_quotes cell ++ quote ∷ []

abbrev pub row_text : List Text → Text
row_text row = join comma (map quoted_cell row)

-- csvContent
unfoldable pub csv_content : Formats → List UiTransaction → Text
csv_content f transactions =
    join line_feed (join comma headers ∷ map (λ txn. row_text (cells f txn)) transactions)
