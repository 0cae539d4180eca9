-- ===== src/Payment/Listing/Pages.antt =====
-- What the pages of a listing hold together.
use settlr.Prelude.{
  All-drop, All-sort_by, All-passed, keep-none, length-sort_by, take-all, map-append, ℕ, zero, suc,
  ◌+◌, ◌-◌, ◌*◌, ◌≤◌, ◌≡◌, refl, sym, ap, ◌∙◌, subst, true, Option, none, some, List, [], ◌∷◌, ◌++◌,
  map, String, keep, take, drop, length, sort_by, All, All-take, All-map, ℤ, arith,
}
use native.Mathlib.Nat.{mod-lt, div-add-mod'}
use mathlib.Core.List.{Permᴰ}
use settlr.Payment.Listing.Order.{HasDistinctKeys, sort-Perm}
use settlr.Errors.{Result, ok, err}
use settlr.Database.{TransactionRow, Tables}
use settlr.Auth.{UserRow}
use settlr.Account.{page_of, page_count, newest_transaction}
use settlr.Account.Paging.{first_pages, first_pages-take}
use settlr.Payment.Listing.{
  ListQuery, Finder, ListedTransaction, Listing, is_own, is_listed, listed, found_rows, matching,
  list_page, own_ids, page_from, number_of, limited_to, list_own, empty_page, list_transactions,
}

-- Enough pages for every row.
pub page_count-enough : (total limit : ℕ) → 1 ≤ limit → total ≤ page_count total limit * limit
page_count-enough total limit h =
    let n = total + (limit - 1) in omega (arith, div-add-mod' n limit, mod-lt n h)

-- The arrangement of the rows of a page has the same rows.
abbrev pub Rearranges : Finder → Type 0
Rearranges d = (page : ℕ) (rows : List TransactionRow) → Permᴰ rows (d.arranged page rows)

abbrev pub created : TransactionRow → ℕ
created row = row.created_at

-- No two of the rows that match were created at one time.
abbrev pub HaveDistinctTimes : Finder → Tables → List UserRow → List String → ListQuery → Type 0
HaveDistinctTimes d t users ids q =
    HasDistinctKeys created (keep (is_listed d t users ids q) t.transactions)

abbrev pub transactions_of : Result Listing → List ListedTransaction
transactions_of (ok answer) = answer.transactions
transactions_of (err e) = []

module _ (d : Finder) (t : Tables) (users : List UserRow) (ids : List String) (q : ListQuery) where
  pub total-matching :
      (page limit : ℕ)
      → (list_page d t users ids q page limit).total ≡ length (matching d t users ids q)
  unfolding list_page matching
  total-matching page limit =
      sym (length-sort_by newest_transaction (keep (is_listed d t users ids q) t.transactions))

  own-listed : (row : TransactionRow) → is_listed d t users ids q row ≡ true → is_own ids row ≡ true
  unfolding is_listed
  own-listed row h = ground arith

  abbrev IsOwn : TransactionRow → Type 0
  IsOwn row = is_own ids row ≡ true

  matching-IsOwn : All IsOwn (matching d t users ids q)
  unfolding matching
  matching-IsOwn =
      All-sort_by IsOwn newest_transaction (keep (is_listed d t users ids q) t.transactions) (
        All-map (keep (is_listed d t users ids q) t.transactions) own-listed
          (All-passed (is_listed d t users ids q) t.transactions))

  listed-rows :
      (rows : List TransactionRow)
      → All IsOwn rows
      → All (λ (x : ListedTransaction). IsOwn x.row) (map (listed t users) rows)
  listed-rows [] h = tt
  listed-rows (row ∷ rows) h = (h.0, listed-rows rows h.1)

  module _ (rearranges : Rearranges d) (distinct : HaveDistinctTimes d t users ids q) where
    -- A page holds the rows of its place.
    pub list_page-matching :
        (page limit : ℕ)
        → (list_page d t users ids q page limit).transactions
          ≡ map (listed t users) (page_of page limit (matching d t users ids q))
    unfolding list_page matching found_rows page_of
    list_page-matching page limit =
        let rows = keep (is_listed d t users ids q) t.transactions in
        ap (λ xs. map (listed t users) (take limit (drop ((page - 1) * limit) xs)))
          (sym (sort-Perm created (rearranges page rows) distinct))

    page-IsOwn :
        (page limit : ℕ)
        → All
            (λ (x : ListedTransaction). IsOwn x.row)
            (list_page d t users ids q page limit).transactions
    unfolding page_of
    page-IsOwn page limit =
        let rows = matching d t users ids q in
        subst (All (λ (x : ListedTransaction). IsOwn x.row)) (sym (list_page-matching page limit)) (
          listed-rows (take limit (drop ((page - 1) * limit) rows)) (
            All-take IsOwn limit (drop ((page - 1) * limit) rows)
              (All-drop IsOwn ((page - 1) * limit) rows matching-IsOwn)))

  -- The transactions of the pages 1 to n, one page after the other.
  unfoldable own_pages : ℤ → ℕ → List ListedTransaction
  own_pages limit zero = []
  own_pages limit (suc n) =
      own_pages limit n ++ transactions_of (list_own d t users ids q (suc n) limit)

module _ (d : Finder) (t : Tables) (users : List UserRow) (i : String) (ids : List String)
    (q : ListQuery) (rearranges : Rearranges d)
    (distinct : HaveDistinctTimes d t users (i ∷ ids) q) where
  own_pages-first :
      (limit n : ℕ)
      → own_pages d t users (i ∷ ids) q (ℤ.pos limit) n
        ≡ map (listed t users) (first_pages n limit (matching d t users (i ∷ ids) q))
  unfolding own_pages
  own_pages-first limit zero = refl
  own_pages-first limit (suc n) =
      let rows = matching d t users (i ∷ ids) q in
      rw
        (
          own_pages-first limit n,
          list_page-matching d t users (i ∷ ids) q rearranges distinct (suc n) limit,
        )
        (sym (map-append (listed t users) (first_pages n limit rows) (page_of (suc n) limit rows)))

  all_pages :
      (page limit : ℕ)
      → 1 ≤ limit
      → own_pages d t users
          (i ∷ ids)
          q
          (ℤ.pos limit)
          (list_page d t users (i ∷ ids) q page limit).total_pages
        ≡ map (listed t users) (matching d t users (i ∷ ids) q)
  unfolding list_page
  all_pages page limit h =
      let sorted = matching d t users (i ∷ ids) q in
      let total = length (keep (is_listed d t users (i ∷ ids) q) t.transactions) in
      let enough : length sorted ≤ page_count total limit * limit =
        subst (λ n. n ≤ page_count total limit * limit)
          (total-matching d t users (i ∷ ids) q page limit) (page_count-enough total limit h) in
      own_pages-first limit (page_count total limit)
      ∙ ap (map (listed t users)) (
          first_pages-take (page_count total limit) limit sorted
          ∙ take-all (page_count total limit * limit) sorted enough)

limited_to-positive : (o : Option ℤ) (n : ℕ) → limited_to o ≡ ℤ.pos n → 1 ≤ n
limited_to-positive none n h = ground arith
limited_to-positive (some (ℤ.pos m)) n h = ground arith
limited_to-positive (some (ℤ.negsuc m)) n h = cc

pub page_from-suc : (k : ℕ) → page_from (some (ℤ.pos (suc k))) ≡ suc k
page_from-suc k = ground arith

pub no_accounts-matching :
    (d : Finder) (t : Tables) (users : List UserRow) (q : ListQuery) → matching d t users [] q ≡ []
unfolding matching is_listed
no_accounts-matching d t users q =
    ap (sort_by newest_transaction)
      (keep-none (is_listed d t users [] q) t.transactions (λ row. refl))

answered : {a b : Listing} → Result.ok a ≡ ok b → a ≡ b
answered h = cc

module _ (shown : ℕ → String) (d : Finder) (user_id : String) (q : ListQuery) (t : Tables)
    (users : List UserRow) where
  -- The transactions that the requests for the pages 1 to n are answered with, one page after the
  -- other.
  unfoldable pub answers_up_to : ℕ → List ListedTransaction
  answers_up_to zero = []
  answers_up_to (suc n) =
      answers_up_to n
      ++ transactions_of
          (list_transactions d user_id (record q { page = some (shown (suc n)) }) t users)

  abbrev ids : List String
  ids = own_ids t user_id

  -- The transactions of the answer are from or to the accounts of the user; the requests for the pages
  -- from 1 to its number of pages are answered with the matching transactions; and there are as many
  -- as its total.
  abbrev pub IsComplete : Listing → Type 0
  IsComplete answer =
      (All (λ (x : ListedTransaction). is_own ids x.row ≡ true) answer.transactions)
      × (answers_up_to answer.total_pages ≡ map (listed t users) (matching d t users ids q))
      × (answer.total ≡ length (matching d t users ids q))

  -- The query's own page is not read once the page is known.
  same_answer :
      (own : List String) (page : Option String) (n : ℕ) (limit : ℤ)
      → transactions_of (list_own d t users own (record q { page = page }) n limit)
        ≡ transactions_of (list_own d t users own q n limit)
  unfolding list_page found_rows is_listed
  same_answer [] page n limit = refl
  same_answer (i ∷ own) page n (ℤ.pos limit) = refl
  same_answer (i ∷ own) page n (ℤ.negsuc limit) = refl

  module _ (reads : (n : ℕ) → d.parse_int (shown n) ≡ some (ℤ.pos n)) where
    one_answer :
        (n : ℕ)
        → transactions_of
            (list_transactions d user_id (record q { page = some (shown (suc n)) }) t users)
          ≡ transactions_of (list_own d t users ids q (suc n) (limited_to (number_of d q.limit)))
    unfolding list_transactions
    one_answer n =
        rw (reads (suc n), page_from-suc n)
          (same_answer ids (some (shown (suc n))) (suc n) (limited_to (number_of d q.limit)))

    answers-pages :
        (n : ℕ) → answers_up_to n ≡ own_pages d t users ids q (limited_to (number_of d q.limit)) n
    unfolding answers_up_to own_pages
    answers-pages zero = refl
    answers-pages (suc n) = rw (answers-pages n, one_answer n) refl

    -- Suppose that parseInt reads back what the query string has of a number, that the rows a page is
    -- taken from are the matching rows in any order, and that no two of them were created at one time;
    -- the tables do not change. If a user's transactions are listed, whatever the query, then every
    -- transaction of the answer is from or to an account of the user; the requests of the same query
    -- for the pages from 1 to the answer's number of pages are answered, one after the other, with
    -- exactly the transactions that match the query, newest first; and these are as many as the
    -- answer's total.
    pub list_transactions-IsComplete :
        Rearranges d
        → HaveDistinctTimes d t users ids q
        → (answer : Listing) → list_transactions d user_id q t users ≡ ok answer
        → IsComplete answer
    unfolding list_transactions own_pages
    list_transactions-IsComplete rearranges distinct answer h =
        go (own_ids t user_id) (limited_to (number_of d q.limit)) refl answers-pages distinct h
      where
        page : ℕ
        page = page_from (number_of d q.page)

        Complete : List String → Listing → Type 0
        Complete own answer =
            (All (λ (x : ListedTransaction). is_own own x.row ≡ true) answer.transactions)
            × (answers_up_to answer.total_pages ≡ map (listed t users) (matching d t users own q))
            × (answer.total ≡ length (matching d t users own q))

        nothing :
            (limit : ℤ)
            → ((n : ℕ) → answers_up_to n ≡ own_pages d t users [] q limit n)
            → Complete [] (empty_page limit page)
        nothing limit served =
            let none_match = no_accounts-matching d t users q in
            (tt, served 0 ∙ sym (ap (map (listed t users)) none_match), sym (ap length none_match))

        go :
            (own : List String) (limit : ℤ)
            → limited_to (number_of d q.limit) ≡ limit
            → ((n : ℕ) → answers_up_to n ≡ own_pages d t users own q limit n)
            → HaveDistinctTimes d t users own q
            → list_own d t users own q page limit ≡ ok answer
            → Complete own answer
        go [] limit e served dis k = subst (Complete []) (answered k) (nothing limit served)
        go (i ∷ own) (ℤ.pos limit) e served dis k = subst (Complete (i ∷ own)) (answered k) (
          page-IsOwn d t users (i ∷ own) q rearranges dis page limit,
          served (list_page d t users (i ∷ own) q page limit).total_pages
              ∙ all_pages d t users i own q rearranges dis page limit
                  (limited_to-positive (number_of d q.limit) limit e),
          total-matching d t users (i ∷ own) q page limit,
        )
        go (i ∷ own) (ℤ.negsuc n) e served dis k = cc
