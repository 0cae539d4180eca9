-- ===== src/Auth/Rotation.antt =====
-- The refresh token of a user: one is valid at a time, and a logout ends it.
use settlr.Prelude.{
  ◌≡◌, ◌≢◌, inl, inr, List, [], ◌∷◌, Bool-cases, refl, sym, ap, ◌∙◌, true, false, Option, none,
  some, Option-cases, String, same_text, find, eq_iff, arith,
}
use settlr.Errors.{ok, err}
use settlr.Redis.{Key}
use settlr.Auth.{
  UserRow, AuthTokens, AuthPlatform, AuthState, is_user, unauthorized, is_revoked, active,
  refresh_ttl_seconds, find_user, generate_tokens, store_refresh, issue, refresh, logout,
}

unrevoked : (token : String) (o : Option String) → is_revoked token o ≡ false → o ≡ some token
unrevoked token none h = cc
unrevoked token (some stored) h = ground (arith, (eq_iff stored token).0)

revoked-other : (token : String) (o : Option String) → o ≢ some token → is_revoked token o ≡ true
revoked-other token none h = refl
revoked-other token (some stored) h = elim (Bool-cases (same_text stored token)) [
  | inl e ↦ absurd (h (ap some ((eq_iff stored token).0 e)))
  | inr d ↦ ground arith
]

pub found-id :
    (i : String) (rows : List UserRow) (row : UserRow)
    → find (is_user i) rows ≡ some row
    → row.id ≡ i
found-id i [] row h = cc
found-id i (x ∷ xs) row h = ground (arith, (eq_iff x.id i).0, found-id i xs row)

pub active-same : (o : Option UserRow) (row : UserRow) → active o ≡ some row → o ≡ some row
active-same none row h = cc
active-same (some x) row h = ground arith

active-is_active : (o : Option UserRow) (row : UserRow) → active o ≡ some row → row.is_active ≡ true
active-is_active none row h = cc
active-is_active (some x) row h = ground arith

module _ (p : AuthPlatform) where
  -- Tokens that are issued are those that Redis holds afterwards.
  pub issue-stores :
      (user : UserRow) (s : AuthState p) (tokens : AuthTokens)
      → (issue p user s).0 ≡ ok tokens
      → let s' = (issue p user s).1 in
        (p.redis.value (Key.refresh user.id) s'.store ≡ some tokens.refresh_token)
        × (s'.users ≡ s.users)
        × (s'.accounts ≡ s.accounts)
  unfolding issue generate_tokens store_refresh
  issue-stores user s tokens h = ground (
    arith,
    p.redis.setex-self (Key.refresh user.id) refresh_ttl_seconds
        (p.sign_refresh user.id user.email (p.random_uuid s.draws)) s.store,
  )

  -- A refresh that returns was made with the token that Redis holds for the user of the token; that
  -- user has a row and is active; and the refresh replaces that token by the one it returns; users and
  -- accounts stay.
  pub refresh-rotates :
      (token user_id : String) (s : AuthState p) (tokens : AuthTokens)
      → (refresh p token s).0 ≡ ok tokens
      → p.verify token ≡ some user_id
      → let s' = (refresh p token s).1 in
        (p.redis.value (Key.refresh user_id) s.store ≡ some token)
        × ((row : UserRow) × (find (is_user user_id) s.users ≡ some row) × (row.is_active ≡ true))
        × (p.redis.value (Key.refresh user_id) s'.store ≡ some tokens.refresh_token)
        × (s'.users ≡ s.users)
        × (s'.accounts ≡ s.accounts)
  unfolding refresh find_user
  refresh-rotates token user_id s tokens h decoded =
      let key = Key.refresh user_id in
      let read = record s { store = (p.redis.get key s.store).1 } in
      elim (Option-cases (p.redis.get key s.store).0) [
        | inl failed ↦ ground arith
        | inr (stored, got) ↦ elim (Bool-cases (is_revoked token stored)) [
          | inl refused ↦ ground arith
          | inr held ↦ elim (Option-cases (active (find (is_user user_id) s.users))) [
            | inl missing ↦ ground arith
            | inr (row, found) ↦
                let same =
                  found-id user_id s.users row
                    (active-same (find (is_user user_id) s.users) row found) in
                let issued = issue-stores row read tokens (ground arith) in
                (
                  sym (p.redis.get-value key s.store got) ∙ unrevoked token stored held,
                  (
                    row,
                    active-same (find (is_user user_id) s.users) row found,
                    active-is_active (find (is_user user_id) s.users) row found,
                  ),
                  ground (arith, same, issued),
                  ground (arith, issued),
                  ground (arith, issued),
                )
          ]
        ]
      ]

  -- A token that is not the one that Redis holds for its user is refused with UNAUTHORIZED and
  -- nothing is issued, provided that Redis answers.
  pub refresh-revoked :
      (token user_id : String) (s : AuthState p)
      → p.verify token ≡ some user_id
      → (p.redis.get (Key.refresh user_id) s.store).0 ≢ none
      → p.redis.value (Key.refresh user_id) s.store ≢ some token
      → ((refresh p token s).0 ≡ err unauthorized) × ((refresh p token s).1.draws ≡ s.draws)
  unfolding refresh
  refresh-revoked token user_id s decoded answers other =
      elim (Option-cases (p.redis.get (Key.refresh user_id) s.store).0) [
        | inl failed ↦ absurd (answers failed)
        | inr (stored, got) ↦
            let refused =
              revoked-other token stored
                (λ e. other (sym (p.redis.get-value (Key.refresh user_id) s.store got) ∙ e)) in
            (ground arith, ground arith)
      ]

  -- After a logout of a user that returns, a refresh with any refresh token that is verified to be of
  -- that user throws UNAUTHORIZED, provided that Redis answers the refresh. Of the access tokens of the
  -- user nothing is said.
  pub logout-revokes :
      (token user_id : String) (s : AuthState p)
      → (logout p user_id s).0 ≡ ok tt
      → p.verify token ≡ some user_id
      → (p.redis.get (Key.refresh user_id) (logout p user_id s).1.store).0 ≢ none
      → (refresh p token (logout p user_id s).1).0 ≡ err unauthorized
  unfolding logout
  logout-revokes token user_id s h decoded answers =
      (refresh-revoked token user_id (logout p user_id s).1 decoded answers
        (λ e. ground (arith, p.redis.del-self (Key.refresh user_id) s.store))).0
