-- ===== src/Ui/History/Walk.antt =====
-- What a user sees who presses Load more until it is gone.
use settlr.Prelude.{
  ℕ, zero, suc, ◌+◌, ◌-◌, ◌*◌, ◌≤◌, ◌≡◌, refl, sym, ap, ◌∙◌, Bool, true, false, ltb, Option, some,
  List, [], ◌∷◌, ◌++◌, String, ℤ, map, map-append, take, drop, length, if◌then◌else◌, arith,
}
use settlr.Database.{TransactionRow, Tables}
use settlr.Auth.{UserRow}
use settlr.Account.{page_of, page_count}
use settlr.Payment.Listing.{
  Finder, is_listed, found_rows, listed, matching, list_page, own_ids, list_own, list_transactions,
}
use settlr.Account.Paging.{drop-all}
use settlr.Payment.Listing.Pages.{
  Rearranges, HaveDistinctTimes, list_page-matching, page_from-suc, no_accounts-matching,
  total-matching, page_count-enough,
}
use settlr.Ui.History.{
  Filters, ShownTransaction, TransactionListResponse, TransactionsPage, page_limit, query_of,
  normalize_list_response, coerce_transaction, transaction_json, page_reply, items_of, more_pages,
  fetch_page, shown_until_end, handle_filter_change,
}

module _ {A : Type 0} where
  take-drop : (n m : ℕ) (xs : List A) → take n (drop m xs) ++ drop (m + n) xs ≡ drop m xs
  take-drop zero zero [] = refl
  take-drop zero zero (x ∷ xs) = refl
  take-drop (suc n) zero [] = drop-all (0 + suc n) [] (omega arith)
  take-drop (suc n) zero (x ∷ xs) =
      let same : 0 + suc n ≡ suc (0 + n) = omega arith in
      ap (λ k. x ∷ take n xs ++ drop k (x ∷ xs)) same ∙ ap (λ ys. x ∷ ys) (take-drop n zero xs)
  take-drop zero (suc m) [] = drop-all (suc m + 0) [] (omega arith)
  take-drop (suc n) (suc m) [] = drop-all (suc m + suc n) [] (omega arith)
  take-drop n (suc m) (x ∷ xs) =
      let same : suc m + n ≡ suc (m + n) = omega arith in
      ap (λ k. take n (drop m xs) ++ drop k (x ∷ xs)) same ∙ take-drop n m xs

  -- What is left after the page k + 1.
  next_page :
      {B : Type 0} (f : List A → List B) (k : ℕ) (xs : List A)
      → f [] ≡ []
      → (if ltb (suc k) (page_count (length xs) page_limit)
          then f (drop (suc k * page_limit) xs)
          else [])
        ≡ f (drop (suc k * page_limit) xs)
  next_page {B = B} f k xs nothing = go (ltb (suc k) (page_count (length xs) page_limit)) refl
    where
      go :
          (b : Bool)
          → ltb (suc k) (page_count (length xs) page_limit) ≡ b
          → (if b then f (drop (suc k * page_limit) xs) else []) ≡ f (drop (suc k * page_limit) xs)
      go true e = refl
      go false e =
          let enough = page_count-enough (length xs) page_limit (omega arith) in
          let past : page_count (length xs) page_limit ≤ suc k = ground arith in
          let gone = drop-all (suc k * page_limit) xs (omega arith) in sym (ap f gone ∙ nothing)

  -- A page and what is left after it.
  page-rest :
      (k : ℕ) (xs : List A)
      → page_of (suc k) page_limit xs ++ drop (suc k * page_limit) xs ≡ drop (k * page_limit) xs
  unfolding page_of
  page-rest k xs =
      let before : suc k - 1 ≡ k = omega arith in
      let after : suc k * page_limit ≡ k * page_limit + page_limit = omega arith in
      rw (before, after) (take-drop page_limit (k * page_limit) xs)

empty_rows : (k : ℕ) → page_of {A = TransactionRow} (suc k) page_limit [] ≡ []
unfolding page_of
empty_rows k = ap (take page_limit) (drop-all ((suc k - 1) * page_limit) [] (omega arith))

module _ (to_number : String → Option ℕ) (shown : ℕ → String) (d : Finder) (trace_id : String)
    (user_id : String) (t : Tables) (users : List UserRow) where
  -- A transaction as it is shown.
  abbrev pub shown_all : List TransactionRow → List ShownTransaction
  shown_all rows =
      map (coerce_transaction to_number) (map transaction_json (map (listed t users) rows))

  shown_all-append :
      (xs ys : List TransactionRow) → shown_all (xs ++ ys) ≡ shown_all xs ++ shown_all ys
  shown_all-append xs ys =
      rw
        (
          map-append (listed t users) xs ys,
          map-append transaction_json (map (listed t users) xs) (map (listed t users) ys),
        )
        (map-append (coerce_transaction to_number) (map transaction_json (map (listed t users) xs))
          (map transaction_json (map (listed t users) ys)))

  module _ (filters : Filters) where
    -- The transactions that match the filters.
    abbrev pub history : List TransactionRow
    history = matching d t users (own_ids t user_id) (query_of shown filters 1)

    -- What the answer of one page holds.
    abbrev IsAnswer : List String → ℕ → Option TransactionListResponse → Type 0
    IsAnswer ids k response =
        let rows = matching d t users ids (query_of shown filters 1) in
        (items_of response ≡ shown_all (page_of (suc k) page_limit rows))
        × (more_pages (suc k) response ≡ ltb (suc k) (page_count (length rows) page_limit))

    own-IsAnswer :
        (ids : List String) (k : ℕ)
        → Rearranges d
        → HaveDistinctTimes d t users ids (query_of shown filters 1)
        → IsAnswer ids k (
            page_reply to_number shown d trace_id user_id t users
              (list_own d t users ids (query_of shown filters (suc k)) (suc k) (ℤ.pos page_limit)))
    unfolding list_page matching found_rows is_listed normalize_list_response page_of
    own-IsAnswer [] k rearranges distinct =
        let none_match = no_accounts-matching d t users (query_of shown filters 1) in
        (
          sym (
              ap (λ rows. shown_all (page_of (suc k) page_limit rows)) none_match
              ∙ ap shown_all (empty_rows k)),
          sym (ap (λ rows. ltb (suc k) (page_count (length rows) page_limit)) none_match),
        )
    own-IsAnswer (i ∷ ids) k rearranges distinct = (
      ap (λ xs. map (coerce_transaction to_number) (map transaction_json xs))
          (list_page-matching d t users (i ∷ ids) (query_of shown filters 1) rearranges distinct
            (suc k) page_limit),
      ap (λ n. ltb (suc k) (page_count n page_limit))
          (total-matching d t users (i ∷ ids) (query_of shown filters (suc k)) (suc k) page_limit),
    )

    module _ (reads : (n : ℕ) → d.parse_int (shown n) ≡ some (ℤ.pos n)) (rearranges : Rearranges d)
        (distinct : HaveDistinctTimes d t users
          (own_ids t user_id)
          (query_of shown filters 1)) where
      fetched-IsAnswer :
          (k : ℕ)
          → IsAnswer (own_ids t user_id) k (
              fetch_page to_number shown d trace_id user_id t users
                (record { filters = filters; page = suc k }))
      unfolding fetch_page list_transactions
      fetched-IsAnswer k =
          rw (reads page_limit, reads (suc k), page_from-suc k)
            (own-IsAnswer (own_ids t user_id) k rearranges distinct)

      rest_shown :
          (fuel k : ℕ)
          → length history ≤ (k + fuel) * page_limit
          → shown_until_end to_number shown d trace_id user_id t users fuel
              (record { filters = filters; page = suc k })
            ≡ shown_all (drop (k * page_limit) history)
      unfolding shown_until_end
      rest_shown zero k h =
          let past : length history ≤ k * page_limit = omega arith in
          sym (ap shown_all (drop-all (k * page_limit) history past))
      rest_shown (suc fuel) k h =
          let enough : length history ≤ (suc k + fuel) * page_limit = omega arith in
          let (items, more) = fetched-IsAnswer k in
          rw (items, more, rest_shown fuel (suc k) enough, next_page shown_all k history refl)
            (sym (
                shown_all-append (page_of (suc k) page_limit history)
                  (drop (suc k * page_limit) history))
              ∙ ap shown_all (page-rest k history))

-- Suppose that parseInt reads back what the query string has of a number, that the rows a page is taken
-- from are the matching rows in any order, that no two of them were created at one time, and that the
-- tables do not change. After the filters are changed, whatever page was shown before, the pages that appear while
-- the button Load more is there and is pressed, at most `fuel` of them with 20 transactions each, hold
-- one after the other every transaction of the user that matches the filters, in the order of the
-- listing and each once, if so many pages have room for all of them.
pub load_more-shows_all :
    (to_number : String → Option ℕ) (shown : ℕ → String) (d : Finder) (trace_id : String)
    (user_id : String) (t : Tables) (users : List UserRow) (filters : Filters)
    (before : TransactionsPage) (fuel : ℕ)
    → ((n : ℕ) → d.parse_int (shown n) ≡ some (ℤ.pos n))
    → Rearranges d
    → HaveDistinctTimes d t users (own_ids t user_id) (query_of shown filters 1)
    → length (matching d t users (own_ids t user_id) (query_of shown filters 1)) ≤ fuel * page_limit
    → shown_until_end to_number shown d trace_id user_id t users fuel
        (handle_filter_change filters before)
      ≡ map (coerce_transaction to_number) (
          map transaction_json (
            map
              (listed t users)
              (matching d t users (own_ids t user_id) (query_of shown filters 1))))
load_more-shows_all to_number shown d trace_id user_id t users filters before fuel reads rearranges
      distinct h =
    rest_shown to_number shown d trace_id user_id t users filters reads rearranges distinct fuel 0
      (omega arith)
