-- ===== src/Account/Paging.antt =====
-- What the pages of a history are, and who may read them.
use settlr.Prelude.{
  ℕ, zero, suc, ◌+◌, ◌-◌, ◌*◌, ◌≤◌, ◌≡◌, refl, ap, ◌∙◌, Bool, true, false, Option, none, some, List,
  [], ◌∷◌, ◌++◌, String, take, drop, length, arith,
}
use native.Mathlib.Numerals.{unary_clauses}
use settlr.Errors.{Result, ok, err}
use settlr.Database.{AccountRow, TransactionRow, Tables, parse_bigint}
use settlr.Payment.Repository.{read_row}
use settlr.Account.{
  Page, Pages, AccountState, page_of, query_page, find_by_id_and_user_id, get_account, read_page,
  get_history, get_transactions,
}

module _ {A : Type 0} where
  take-add : (m n : ℕ) (xs : List A) → take m xs ++ take n (drop m xs) ≡ take (m + n) xs
  take-add zero n xs = let same : n ≡ 0 + n = omega arith in ap (λ k. take k xs) same
  take-add (suc m) zero [] = simp unary_clauses refl
  take-add (suc m) (suc n) [] = simp unary_clauses refl
  take-add (suc m) n (x ∷ xs) =
      let same : suc (m + n) ≡ suc m + n = omega arith in
      ap (λ ys. x ∷ ys) (take-add m n xs) ∙ ap (λ k. take k (x ∷ xs)) same

  -- Pages 1 to n, one after the other.
  abbrev pub first_pages : ℕ → ℕ → List A → List A
  first_pages zero limit xs = []
  first_pages (suc n) limit xs = first_pages n limit xs ++ page_of (suc n) limit xs

  -- The first n pages of a history hold its first n * limit rows, each once and in order.
  pub first_pages-take : (n limit : ℕ) (xs : List A) → first_pages n limit xs ≡ take (n * limit) xs
  unfolding page_of
  first_pages-take zero limit xs =
      let none_left : 0 ≡ 0 * limit = omega arith in ap (λ k. take k xs) none_left
  first_pages-take (suc n) limit xs =
      let before : suc n - 1 ≡ n = omega arith in
      let size : n * limit + limit ≡ suc n * limit = omega arith in
      rw (first_pages-take n limit xs, before)
        (take-add (n * limit) limit xs ∙ ap (λ k. take k xs) size)

pub drop-all : {A : Type 0} (n : ℕ) (xs : List A) → length xs ≤ n → drop n xs ≡ []
drop-all zero [] h = refl
drop-all zero (x ∷ xs) h = absurd (omega arith)
drop-all (suc n) [] h = refl
drop-all (suc n) (x ∷ xs) h = drop-all n xs (omega arith)

take-nil : {A : Type 0} (n : ℕ) (xs : List A) → xs ≡ [] → take n xs ≡ []
take-nil zero xs h = refl
take-nil (suc n) [] h = refl
take-nil (suc n) (x ∷ xs) h = cc

-- Whether an account was read and found.
abbrev pub is_found : Result (Option AccountRow) → Bool
is_found (ok (some row)) = true
is_found (ok none) = false
is_found (err e) = false

module _ {A : Type 0} (p : Pages A) where
  -- The query of a page that lies past the last row returns no row and a total of 0, whatever the
  -- account has.
  pub query_page-past_end :
      (select : String → Tables → List A) (i u : String) (page limit : ℕ) (t : Tables)
      → p.canon i ≡ some u
      → length (select u t) ≤ (page - 1) * limit
      → query_page p select i page limit t ≡ (ok ([], 0), t)
  unfolding query_page page_of
  query_page-past_end select i u page limit t reads past =
      let none_left : take limit (drop ((page - 1) * limit) (select u t)) ≡ [] =
        take-nil limit (drop ((page - 1) * limit) (select u t))
          (drop-all ((page - 1) * limit) (select u t) past) in
      ground (arith, reads, none_left)

-- A page of transactions, from the cache or not, is only returned for an account that was found under
-- the id and the user of the request; the tables stay.
pub get_transactions-owner :
    (p : Pages TransactionRow) (i user_id : String) (page limit : ℕ) (w : AccountState p)
    (answer : Page TransactionRow)
    → (get_transactions p i user_id page limit w).0 ≡ ok answer
    → (is_found (find_by_id_and_user_id p i user_id w.tables).0 ≡ true)
      × ((get_transactions p i user_id page limit w).1.tables ≡ w.tables)
unfolding get_transactions get_history read_page query_page get_account find_by_id_and_user_id
    read_row parse_bigint page_of
get_transactions-owner p i user_id page limit w answer h = ground arith
