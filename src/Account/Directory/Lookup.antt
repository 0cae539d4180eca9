-- ===== src/Account/Directory/Lookup.antt =====
-- Whom a search for recipients finds.
use settlr.Prelude.{
  ◌≤◌, ◌≡◌, ◌≢◌, refl, Bool, true, false, not, List, [], ◌∷◌, String, map, same_text, eq_iff,
  if◌then◌else◌, if-both, keep, take, length, length-take, ltb, All, All-append, All-take, All-keep,
  All-passed, arith,
}
use settlr.Database.{AccountStatus, AccountRow, Tables}
use settlr.Auth.{UserRow}
use settlr.Account.Directory.{
  Directory, Joined, Recipient, joined_with, joined, is_match, is_active_account, lookup_by_query,
  lookup_account, recipient,
}

length-keep : {A : Type 0} (p : A → Bool) (xs : List A) → length (keep p xs) ≤ length xs
length-keep p [] = omega arith
length-keep p (x ∷ xs) = ground (arith, length-keep p xs)

length-map : {A B : Type 0} (f : A → B) (xs : List A) → length (map f xs) ≡ length xs
length-map f [] = refl
length-map f (x ∷ xs) = omega (arith, length-map f xs)

All-both :
    {A : Type 0} (P Q : A → Type 0) (xs : List A) → All P xs → All Q xs → All (λ x. P x × Q x) xs
All-both P Q [] h k = tt
All-both P Q (x ∷ xs) h k = ((h.0, k.0), All-both P Q xs h.1 k.1)

-- A row of the join has the account of its user.
abbrev IsLinked : Joined → Type 0
IsLinked row = same_text row.account.user_id row.user.id ≡ true

joined_with-IsLinked :
    (account : AccountRow) (users : List UserRow) → All IsLinked (joined_with account users)
joined_with-IsLinked account [] = tt
joined_with-IsLinked account (u ∷ users) =
    linked (same_text account.user_id u.id) refl (joined_with-IsLinked account users)
  where
    linked :
        (b : Bool)
        → same_text account.user_id u.id ≡ b
        → All IsLinked (joined_with account users)
        → All IsLinked (
            if b
            then record { account = account; user = u } ∷ joined_with account users
            else joined_with account users)
    linked true e rest = (e, rest)
    linked false e rest = rest

joined-IsLinked :
    (accounts : List AccountRow) (users : List UserRow) → All IsLinked (joined accounts users)
joined-IsLinked [] users = tt
joined-IsLinked (account ∷ accounts) users =
    All-append IsLinked (joined_with account users) (joined accounts users)
      (joined_with-IsLinked account users) (joined-IsLinked accounts users)

-- A recipient that may be shown to a user: the active account of another user, who is active.
abbrev pub MayBeShown : String → Recipient → Type 0
MayBeShown asker r =
    (row : Joined) × (r ≡ recipient row)
    × (row.account.user_id ≡ row.user.id)
    × (row.account.user_id ≢ asker)
    × (row.user.is_active ≡ true)
    × (row.account.status ≡ AccountStatus.active)

module _ (d : Directory) (query asker : String) where
  abbrev IsChosen : Joined → Type 0
  IsChosen row =
      (not (same_text row.account.user_id asker) ≡ true)
      × ((is_match d query row ≡ true) × IsLinked row)

  active_status : (s : AccountStatus) → is_active_account s ≡ true → s ≡ AccountStatus.active
  active_status AccountStatus.active h = refl
  active_status AccountStatus.frozen h = cc
  active_status AccountStatus.closed h = cc

  chosen-MayBeShown : (row : Joined) → IsChosen row → MayBeShown asker (recipient row)
  chosen-MayBeShown row (other, (found, linked)) = (
    row,
    refl,
    (eq_iff row.account.user_id row.user.id).0 linked,
    λ e. ground (arith, other, (eq_iff row.account.user_id asker).1 e),
    ground (arith, found),
    active_status row.account.status (ground (arith, found)),
  )

  rows-MayBeShown :
      (rows : List Joined) → All IsChosen rows → All (MayBeShown asker) (map recipient rows)
  rows-MayBeShown [] h = tt
  rows-MayBeShown (row ∷ rows) h = (chosen-MayBeShown row h.0, rows-MayBeShown rows h.1)

  -- A search returns at most ten recipients, each with the active account of an active user who is not
  -- the one who searches.
  pub lookup_account-MayBeShown :
      (t : Tables) (users : List UserRow)
      → All (MayBeShown asker) (lookup_account d query asker t users)
        × (length (lookup_account d query asker t users) ≤ 10)
  unfolding lookup_account lookup_by_query
  lookup_account-MayBeShown t users =
      let all = joined t.accounts users in
      let matched = keep (is_match d query) all in
      let first = take 10 matched in
      let chosen = keep (λ row. not (same_text row.account.user_id asker)) first in
      let facts : All (λ row. (is_match d query row ≡ true) × IsLinked row) first =
        All-take _ 10 matched (
          All-both (λ row. is_match d query row ≡ true) IsLinked matched
            (All-passed (is_match d query) all)
            (All-keep IsLinked (is_match d query) all (joined-IsLinked t.accounts users))) in
      let kept : All IsChosen chosen =
        All-both (λ row. not (same_text row.account.user_id asker) ≡ true)
          (λ row. (is_match d query row ≡ true) × IsLinked row) chosen
          (All-passed (λ row. not (same_text row.account.user_id asker)) first)
          (All-keep (λ row. (is_match d query row ≡ true) × IsLinked row)
            (λ row. not (same_text row.account.user_id asker)) first facts) in
      (
        if-both (All (MayBeShown asker)) (ltb (d.text_length query) 2) tt
            (rows-MayBeShown chosen kept),
        if-both (λ (xs : List Recipient). length xs ≤ 10) (ltb (d.text_length query) 2)
            (omega arith)
            (omega (
              arith,
              length-map recipient chosen,
              length-keep (λ row. not (same_text row.account.user_id asker)) first,
              length-take 10 matched,
            )),
      )
