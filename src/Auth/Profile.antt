-- ===== src/Auth/Profile.antt =====
-- authService.updateProfile and authRepository.updateProfile. Knex leaves a column alone whose value is
-- undefined; `now` is the clock of the process.
use settlr.Prelude.{ℕ, Option, none, some, String, find, update_where}
use settlr.Errors.{ErrorCode, app_error, app, ok}
use settlr.Action.{Action, pure, or_throw, ◌>>=◌}
use settlr.Auth.{UserRow, SafeUser, safe_user, AuthPlatform, AuthState, is_user}

-- Absent fields are `none`.
pub record ProfileUpdates : Type 0 where
  pub name : Option String
  pub phone : Option String

abbrev updated : Option String → Option String → Option String
updated none column = column
updated (some value) column = some value

abbrev pub updated_row : ProfileUpdates → ℕ → UserRow → UserRow
updated_row updates now row = record row {
  name = updated updates.name row.name;
  phone = updated updates.phone row.phone;
  updated_at = now;
}

module _ (p : AuthPlatform) where
  -- UPDATE ... RETURNING *: the updated row, if there was one.
  unfoldable pub update_profile_row :
      String → ProfileUpdates → Action (AuthState p) (Option UserRow)
  update_profile_row user_id updates s =
      let users = update_where (is_user user_id) (updated_row updates p.now) s.users in
      (ok (find (is_user user_id) users), record s { users = users })

  -- authService.updateProfile
  unfoldable pub update_profile : String → ProfileUpdates → Action (AuthState p) SafeUser
  update_profile user_id updates = do
    found ← update_profile_row user_id updates
    row ← or_throw found (app (app_error ErrorCode.unauthorized 404))
    pure (safe_user row)
