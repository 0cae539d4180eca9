-- ===== src/Auth/Race.antt =====
-- A logout between the two halves of a refresh.
use settlr.Prelude.{◌≡◌, inl, inr, none, some, Option-cases, String, find, arith}
use settlr.Errors.{ok}
use settlr.Redis.{Key}
use settlr.Auth.{AuthTokens, AuthPlatform, AuthState, is_user, active, find_user, reissue, logout}
use settlr.Auth.Rotation.{found-id, active-same, issue-stores}

module _ (p : AuthPlatform) where
  logout-frees :
      (user_id : String) (s : AuthState p)
      → (logout p user_id s).0 ≡ ok tt
      → p.redis.value (Key.refresh user_id) (logout p user_id s).1.store ≡ none
  unfolding logout
  logout-frees user_id s e = ground (arith, p.redis.del-self (Key.refresh user_id) s.store)

  -- A logout that returns, after a refresh of the same user has compared its token and before it goes
  -- on, frees the key; if the refresh then returns, Redis holds the refresh token that it returned, as
  -- if there had been no logout.
  pub logout-overtaken :
      (user_id : String) (s : AuthState p) (tokens : AuthTokens)
      → (logout p user_id s).0 ≡ ok tt
      → (reissue p user_id (logout p user_id s).1).0 ≡ ok tokens
      → let s' = (logout p user_id s).1 in
        let s'' = (reissue p user_id s').1 in
        (p.redis.value (Key.refresh user_id) s'.store ≡ none)
        × (p.redis.value (Key.refresh user_id) s''.store ≡ some tokens.refresh_token)
  unfolding find_user
  logout-overtaken user_id s tokens left h =
      let s' = (logout p user_id s).1 in
      (
        logout-frees user_id s left,
        elim (Option-cases (active (find (is_user user_id) s'.users))) [
          | inl missing ↦ ground arith
          | inr (row, found) ↦
              let same =
                found-id user_id s'.users row
                  (active-same (find (is_user user_id) s'.users) row found) in
              let issued = issue-stores p row s' tokens (ground arith) in
              ground (arith, same, issued)
        ],
      )
