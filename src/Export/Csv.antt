-- ===== src/Export/Csv.antt =====
-- A reader of CSV as RFC 4180 describes it, and the exported file as it reads it.
use settlr.Prelude.{
  append_nil, append_assoc, append-cons, ℕ, ◌≡◌, refl, ap, sym, ◌∙◌, List, [], ◌∷◌, ◌++◌, map, ◌==◌,
  if◌then◌else◌, Bool-cases, inl, inr, arith,
}
use settlr.Export.{
  Text, quote, comma, line_feed, UiTransaction, Formats, headers, cells, join, double_quotes,
  quoted_cell, row_text, csv_content,
}

pub data Sign : Type 0 where
  quotation separator newline letter : Sign

abbrev sign : ℕ → Sign
sign c =
    if c == quote
    then Sign.quotation
    else if c == comma
    then Sign.separator
    else if c == line_feed
    then Sign.newline
    else Sign.letter

-- Before a field, in a field without quotes, within quotes, and after a quote within them.
pub data Place : Type 0 where
  start plain quoted closing : Place

abbrev pub File : Type 0
File = List (List Text)

-- The empty file has one row of one empty field.
abbrev blank : File
blank = ([] ∷ []) ∷ []

-- One more character, field or row in front.
abbrev add_char : ℕ → File → File
add_char c ((x ∷ xs) ∷ rows) = ((c ∷ x) ∷ xs) ∷ rows
add_char c ([] ∷ rows) = ((c ∷ []) ∷ []) ∷ rows
add_char c [] = ((c ∷ []) ∷ []) ∷ []

abbrev add_field : File → File
add_field (row ∷ rows) = ([] ∷ row) ∷ rows
add_field [] = blank

abbrev add_row : File → File
add_row rows = ([] ∷ []) ∷ rows

unfoldable pub read : Place → Text → File
read place [] = blank
read Place.start (c ∷ cs) = elim (sign c) [
  | Sign.quotation ↦ read Place.quoted cs
  | Sign.separator ↦ add_field (read Place.start cs)
  | Sign.newline ↦ add_row (read Place.start cs)
  | Sign.letter ↦ add_char c (read Place.plain cs)
]
read Place.plain (c ∷ cs) = elim (sign c) [
  | Sign.separator ↦ add_field (read Place.start cs)
  | Sign.newline ↦ add_row (read Place.start cs)
  | _ ↦ add_char c (read Place.plain cs)
]
read Place.quoted (c ∷ cs) = elim (sign c) [
  | Sign.quotation ↦ read Place.closing cs
  | _ ↦ add_char c (read Place.quoted cs)
]
read Place.closing (c ∷ cs) = elim (sign c) [
  | Sign.quotation ↦ add_char c (read Place.quoted cs)
  | Sign.separator ↦ add_field (read Place.start cs)
  | Sign.newline ↦ add_row (read Place.start cs)
  | Sign.letter ↦ add_char c (read Place.plain cs)
]

unfoldable pub read_csv : Text → File
read_csv text = read Place.start text

add_text : Text → File → File
add_text [] file = file
add_text (c ∷ cs) file = add_char c (add_text cs file)

add_text-first :
    (x : Text) (row : List Text) (rows : File) → add_text x (([] ∷ row) ∷ rows) ≡ (x ∷ row) ∷ rows
unfolding add_text
add_text-first [] row rows = refl
add_text-first (c ∷ x) row rows = ap (add_char c) (add_text-first x row rows)

-- The characters of a cell, quotes included, are read back within quotes.
read-quoted :
    (x rest : Text)
    → read Place.quoted (double_quotes x ++ quote ∷ rest) ≡ add_text x (read Place.closing rest)
unfolding read double_quotes add_text
read-quoted [] rest = refl
read-quoted (c ∷ x) rest = elim (Bool-cases (c == quote)) [
  | inl e ↦ ground (arith, e, read-quoted x rest)
  | inr e ↦ ground (arith, e, read-quoted x rest)
]

read-quoted_cell :
    (x rest : Text)
    → read Place.start (quoted_cell x ++ rest) ≡ add_text x (read Place.closing rest)
unfolding read quoted_cell
read-quoted_cell x rest =
    ap (read Place.quoted) (append-cons (double_quotes x) quote rest) ∙ read-quoted x rest

-- A row is read up to its end, after which the file goes on with an empty field.
read-row_text :
    (x : Text) (xs : List Text) (rest : Text) (rows : File)
    → read Place.closing rest ≡ ([] ∷ []) ∷ rows
    → read Place.start (row_text (x ∷ xs) ++ rest) ≡ (x ∷ xs) ∷ rows
unfolding read
read-row_text x [] rest rows h =
    read-quoted_cell x rest ∙ ap (add_text x) h ∙ add_text-first x [] rows
read-row_text x (y ∷ xs) rest rows h =
    ap (read Place.start) (append_assoc (quoted_cell x) (comma ∷ row_text (y ∷ xs)) rest)
    ∙ read-quoted_cell x (comma ∷ row_text (y ∷ xs) ++ rest)
    ∙ ap (λ file. add_text x (add_field file)) (read-row_text y xs rest rows h)
    ∙ add_text-first x (y ∷ xs) rows

-- The line of the headers, which have no quotes, commas or line feeds.
read-headers :
    (rest : Text)
    → read Place.start (join comma headers ++ (line_feed ∷ rest)) ≡ headers ∷ read Place.start rest
unfolding read
read-headers rest = refl

read-rows :
    (f : Formats) (txn : UiTransaction) (transactions : List UiTransaction)
    → read Place.start (join line_feed (map (λ t. row_text (cells f t)) (txn ∷ transactions)))
      ≡ map (cells f) (txn ∷ transactions)
unfolding read
read-rows f txn [] =
    ap (read Place.start) (sym (append_nil (row_text (cells f txn))))
    ∙ read-row_text txn.id _ [] [] refl
read-rows f txn (t ∷ transactions) =
    read-row_text txn.id _
      (line_feed ∷ join line_feed (map (λ t. row_text (cells f t)) (t ∷ transactions)))
      (read Place.start (join line_feed (map (λ t. row_text (cells f t)) (t ∷ transactions)))) refl
    ∙ ap (λ rows. cells f txn ∷ rows) (read-rows f t transactions)

-- Whatever the cells hold (quotes, commas and line breaks too), and whatever the formatters of dates
-- and numbers print, a reader of CSV finds in the exported file the headers, and then one row for
-- each transaction, in order, with exactly the nine cells of the transaction.
pub read_csv-csv_content :
    (f : Formats) (transactions : List UiTransaction)
    → read_csv (csv_content f transactions) ≡ headers ∷ map (cells f) transactions
unfolding read_csv csv_content read
read_csv-csv_content f [] = headers_alone
  where
    headers_alone : read Place.start (join comma headers) ≡ headers ∷ []
    headers_alone = refl
read_csv-csv_content f (txn ∷ transactions) =
    read-headers (join line_feed (map (λ t. row_text (cells f t)) (txn ∷ transactions)))
    ∙ ap (λ rows. headers ∷ rows) (read-rows f txn transactions)
