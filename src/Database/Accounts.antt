-- ===== src/Database/Accounts.antt =====
-- The accounts table as a list of rows: the row that a primary key selects, the update of that row,
-- and the sum of the balances.
use settlr.Prelude.{
  ℕ, ◌+◌, ◌≡◌, ◌≢◌, refl, Bool, ◌&&◌, ◌==◌, List, [], ◌∷◌, Option, none, some, String, arith, find,
  update_where, count_where, sum_by, same_text, eq_iff,
}
use settlr.Database.{AccountRow}

-- `where({ id })`
abbrev pub has_id : String → AccountRow → Bool
has_id i row = same_text row.id i

abbrev pub find_account : String → List AccountRow → Option AccountRow
find_account i rows = find (has_id i) rows

-- The primary key: no id occurs twice.
abbrev pub HasUniqueIds : List AccountRow → Type 0
HasUniqueIds [] = Unit {0}
HasUniqueIds (row ∷ rows) = (find_account row.id rows ≡ none) × HasUniqueIds rows

abbrev pub total_balance : List AccountRow → ℕ
total_balance = sum_by (λ row. row.balance)

-- `WHERE id = … AND version = …`, on unique ids
abbrev pub at_version : String → ℕ → AccountRow → Bool
at_version i v row = has_id i row && (row.version == v)

module _ (i : String) (f : AccountRow → AccountRow)
    (keeps_id : (row : AccountRow) → (f row).id ≡ row.id) where
  pub update-absent :
      (rows : List AccountRow) → find_account i rows ≡ none → update_where (has_id i) f rows ≡ rows
  update-absent [] h = refl
  update-absent (row ∷ rows) h = ground (arith, update-absent rows)

  -- The updated row is the one that is found.
  pub find-update_self :
      (rows : List AccountRow) (row : AccountRow)
      → find_account i rows ≡ some row
      → find_account i (update_where (has_id i) f rows) ≡ some (f row)
  find-update_self [] row h = cc
  find-update_self (x ∷ rows) row h = ground (arith, keeps_id x, find-update_self rows row)

  -- No other row changes.
  pub find-update_others :
      (j : String) (rows : List AccountRow)
      → j ≢ i
      → find_account j (update_where (has_id i) f rows) ≡ find_account j rows
  find-update_others j [] d = refl
  find-update_others j (x ∷ rows) d =
      ground (arith, keeps_id x, eq_iff x.id i, eq_iff x.id j, find-update_others j rows d)

  find-update_none :
      (j : String) (rows : List AccountRow)
      → find_account j rows ≡ none
      → find_account j (update_where (has_id i) f rows) ≡ none
  find-update_none j [] h = refl
  find-update_none j (x ∷ rows) h = ground (arith, keeps_id x, find-update_none j rows)

  pub update-HasUniqueIds :
      (rows : List AccountRow) → HasUniqueIds rows → HasUniqueIds (update_where (has_id i) f rows)
  update-HasUniqueIds [] u = tt
  update-HasUniqueIds (x ∷ rows) u =
      ground (arith, keeps_id x, find-update_none x.id rows, update-HasUniqueIds rows u.1)

  -- The total changes by what the one row changes.
  pub total_balance-update :
      (rows : List AccountRow) (row : AccountRow)
      → HasUniqueIds rows
      → find_account i rows ≡ some row
      → total_balance (update_where (has_id i) f rows) + row.balance
        ≡ total_balance rows + (f row).balance
  total_balance-update [] row u h = cc
  total_balance-update (x ∷ rows) row u h =
      ground (arith, eq_iff x.id i, update-absent rows, total_balance-update rows row u.1)

  update-at_version_absent :
      (rows : List AccountRow) (v : ℕ)
      → find_account i rows ≡ none
      → (update_where (at_version i v) f rows ≡ rows) × (count_where (at_version i v) rows ≡ 0)
  update-at_version_absent [] v h = (refl, refl)
  update-at_version_absent (x ∷ rows) v h = ground (arith, update-at_version_absent rows v)

  -- On unique ids the test of the version passes for the row with that version, and only there.
  pub update-at_version :
      (rows : List AccountRow) (row : AccountRow) (v : ℕ)
      → HasUniqueIds rows
      → find_account i rows ≡ some row
      → row.version ≡ v
      → (update_where (at_version i v) f rows ≡ update_where (has_id i) f rows)
        × (count_where (at_version i v) rows ≡ 1)
  update-at_version [] row v u h e = cc
  update-at_version (x ∷ rows) row v u h e = ground (
    arith,
    eq_iff x.id i,
    update-absent rows,
    update-at_version_absent rows v,
    update-at_version rows row v u.1,
  )
