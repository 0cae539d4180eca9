-- ===== src/Tests/Pages.antt =====
-- A user who reads the list of transactions. A number is written with as many strokes.
use Prim.Native.String.{String, count}
use Prim.Native.String.count
use mathlib.Core.List.Permᴰ
use settlr.Prelude.{
  ℕ, zero, suc, ◌*◌, ℤ, ◌≤◌, ◌≡◌, refl, ap, ◌∙◌, true, none, some, [], ◌∷◌, length, map, arith,
}
use settlr.Database.{Tables}
use settlr.Payment.Listing.{Finder, is_listed, listed, matching, own_ids}
use settlr.Ui.History.{
  Filters, TransactionsPage, query_of, coerce_transaction, transaction_json, handle_filter_change,
  shown_until_end,
}
use settlr.Payment.Listing.Pages.{Rearranges, HaveDistinctTimes}
use settlr.Ui.History.Walk.{load_more-shows_all}
use settlr.Tests.Payment.{written, tables}

abbrev pub strokes : ℕ → String
strokes zero = ""
strokes (suc n) = String.◌∷◌ "|" (strokes n)

pub count-strokes : (n : ℕ) → count (strokes n) ≡ n
count-strokes zero = count.nil
count-strokes (suc n) = count.cons "|" (strokes n) ∙ ap suc (count-strokes n)

abbrev finder : Finder
finder = record {
  now = 100;
  parse_int = λ text. some (ℤ.pos (count text));
  ilike = λ search text. true;
  arranged = λ page rows. rows;
}

abbrev completed : Filters
completed = record { type_of = none; period = some "all"; status = some "completed"; search = none }

-- Two payments.
abbrev ledger : Tables
ledger = record tables {
  transactions = written "b" 30 ∷ record (written "b" 40) { id = "later"; created_at = 9 } ∷ [];
}

abbrev third_page : TransactionsPage
third_page = record { filters = completed; page = 3 }

rearranged : Rearranges finder
rearranged page rows = Permᴰ.refl rows

apart : HaveDistinctTimes finder ledger [] (own_ids ledger "u") (query_of strokes completed 1)
unfolding is_listed
apart = ((λ e. omega (arith, e), tt), (tt, tt))

two_found :
    length (matching finder ledger [] (own_ids ledger "u") (query_of strokes completed 1)) ≡ 2
unfolding matching is_listed
two_found = refl

two_fit :
    length (matching finder ledger [] (own_ids ledger "u") (query_of strokes completed 1)) ≤ 1 * 20
two_fit = rw two_found (omega arith)

load_more-shows_all_example :
    shown_until_end
      (λ text. none)
      strokes
      finder
      "trace"
      "u"
      ledger
      []
      1
      (handle_filter_change completed third_page)
    ≡ map (coerce_transaction (λ text. none)) (
        map transaction_json (
          map
            (listed ledger [])
            (matching finder ledger [] (own_ids ledger "u") (query_of strokes completed 1))))
load_more-shows_all_example =
    load_more-shows_all (λ text. none) strokes finder "trace" "u" ledger [] completed third_page 1
      (λ n. ap (λ k. some (ℤ.pos k)) (count-strokes n)) rearranged apart two_fit
