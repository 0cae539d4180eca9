-- ===== src/Auth.antt =====
-- services/account-service: services/auth.service.ts and repositories/auth.repository.ts. bcrypt, the
-- signing of tokens, uuids, the clock and Redis are parameters. Log lines are left out.
pub mod Race
pub mod Rotation
pub mod Profile
use settlr.Prelude.{
  ℕ, suc, Bool, true, false, not, ◌&&◌, Option, none, some, List, [], ◌∷◌, ◌++◌, String, same_text,
  ltb, if◌then◌else◌, find, keep, update_where,
}
use settlr.Errors.{ErrorCode, AppError, app_error, Error, app, fault, Fault, Result, ok, err}
use settlr.Action.{Action, pure, throw, throw_if, or_throw, ◌>>=◌, ◌>>◌}
use settlr.Redis.{Redis, Key, command}
use settlr.Database.{AccountStatus, AccountRow}

-- IUserRow
pub record UserRow : Type 0 where
  pub id : String
  pub email : String
  pub password_hash : String
  pub phone : Option String
  pub name : Option String
  pub kyc_status : String
  pub is_active : Bool
  pub created_at : ℕ
  pub updated_at : ℕ

-- IUser without the hash.
pub record SafeUser : Type 0 where
  pub id : String
  pub email : String
  pub phone : Option String
  pub name : Option String
  pub kyc_status : String
  pub is_active : Bool
  pub created_at : ℕ
  pub updated_at : ℕ

-- `const { passwordHash, ...safeUser } = user`
abbrev pub safe_user : UserRow → SafeUser
safe_user row = record {
  id = row.id;
  email = row.email;
  phone = row.phone;
  name = row.name;
  kyc_status = row.kyc_status;
  is_active = row.is_active;
  created_at = row.created_at;
  updated_at = row.updated_at;
}

-- IAuthTokens
pub record AuthTokens : Type 0 where
  pub access_token : String
  pub refresh_token : String

-- The answer of a registration or a login: the tokens, the user without the hash, and the account.
pub record Session : Type 0 where
  pub tokens : AuthTokens
  pub user : SafeUser
  pub account : AccountRow
  pub status_code : ℕ

-- `sign_access` and `sign_refresh` are jwt.sign of a user id and an email, the second with a token id
-- too; `verify` is jwt.verify, as the user id it decodes, `none` if it throws; `hash` is bcrypt.hash
-- with the n-th salt and `matches` is bcrypt.compare.
pub record AuthPlatform : Type 1 where
  pub redis : Redis
  pub sign_access : String → String → String
  pub sign_refresh : String → String → String → String
  pub verify : String → Option String
  pub hash : ℕ → String → String
  pub matches : String → String → Bool
  pub random_uuid : ℕ → String
  pub now : ℕ

pub record Users (S : Type 0) : Type 0 where
  pub store : S
  pub users : List UserRow
  pub accounts : List AccountRow
  pub draws : ℕ

-- 7 * 24 * 60 * 60
abbrev pub refresh_ttl_seconds : ℕ
refresh_ttl_seconds = 604800

abbrev pub unauthorized : Error
unauthorized = app (app_error ErrorCode.unauthorized 401)

abbrev pub invalid_credentials : Error
invalid_credentials = app (app_error ErrorCode.invalid_credentials 401)

-- `value || null`
abbrev pub or_null : Option String → Option String
or_null none = none
or_null (some text) = if same_text text "" then none else some text

abbrev pub is_user : String → UserRow → Bool
is_user i row = same_text row.id i

abbrev pub has_email : String → UserRow → Bool
has_email email row = same_text row.email email

-- `!stored || stored !== refreshToken`
abbrev pub is_revoked : String → Option String → Bool
is_revoked refresh_token none = true
is_revoked refresh_token (some stored) =
    if same_text stored "" then true else not (same_text stored refresh_token)

abbrev pub active : Option UserRow → Option UserRow
active none = none
active (some row) = if row.is_active then some row else none

-- The oldest of a user's accounts: ORDER BY created_at ASC, first.
abbrev pub older : AccountRow → Option AccountRow → AccountRow
older row none = row
older row (some rest) = if ltb rest.created_at row.created_at then rest else row

abbrev pub oldest : List AccountRow → Option AccountRow
oldest [] = none
oldest (row ∷ rows) = let rest = oldest rows in some (older row rest)

module _ (p : AuthPlatform) where
  abbrev pub AuthState : Type 0
  AuthState = Users p.redis.Store

  abbrev pub on_redis {ℓ} : {A : Type ℓ} → Action p.redis.Store A → Action AuthState A
  on_redis m s = let (r, store) = m s.store in (r, record s { store = store })

  -- authRepository.findByEmail
  unfoldable pub find_by_email : String → Action AuthState (Option UserRow)
  find_by_email email s = (ok (find (has_email email) s.users), s)

  -- authRepository.findById, for the id that a token carries.
  unfoldable pub find_user : String → Action AuthState (Option UserRow)
  find_user i s = (ok (find (is_user i) s.users), s)

  abbrev insert_user : UserRow → Option UserRow → Action AuthState UserRow
  insert_user row none s = (ok row, record s { users = s.users ++ (row ∷ []); draws = suc s.draws })
  insert_user row (some _) s = (err (fault Fault.unique_violation), s)

  -- authRepository.createUser; the emails are unique.
  unfoldable pub create_user :
      String → String → Option String → Option String → Action AuthState UserRow
  create_user email password_hash phone name s =
      insert_user
        (record {
          id = p.random_uuid s.draws;
          email = email;
          password_hash = password_hash;
          phone = or_null phone;
          name = or_null name;
          kyc_status = "pending";
          is_active = true;
          created_at = p.now;
          updated_at = p.now;
        })
        (find (has_email email) s.users) s

  abbrev primary_or_create : String → Option AccountRow → Action AuthState AccountRow
  primary_or_create user_id (some row) s = (ok row, s)
  primary_or_create user_id none s =
      let row : AccountRow = record {
        id = p.random_uuid s.draws;
        user_id = user_id;
        balance = 0;
        currency = "INR";
        status = AccountStatus.active;
        version = 0;
        created_at = p.now;
        updated_at = p.now;
      } in
      (ok row, record s { accounts = s.accounts ++ (row ∷ []); draws = suc s.draws })

  -- authRepository.getOrCreatePrimaryAccount; the whole row stands for its three columns.
  unfoldable pub get_or_create_primary_account : String → Action AuthState AccountRow
  get_or_create_primary_account user_id s =
      primary_or_create user_id (oldest (keep (λ row. same_text row.user_id user_id) s.accounts)) s

  -- generateTokens
  unfoldable pub generate_tokens : String → String → Action AuthState AuthTokens
  generate_tokens user_id email s = (
    ok (record {
      access_token = p.sign_access user_id email;
      refresh_token = p.sign_refresh user_id email (p.random_uuid s.draws);
    }),
    record s { draws = suc s.draws },
  )

  -- redis.setex(`refresh:${user.id}`, …)
  unfoldable pub store_refresh : String → AuthTokens → Action AuthState (Unit {0})
  store_refresh user_id tokens =
      on_redis
        (command (p.redis.setex (Key.refresh user_id) refresh_ttl_seconds tokens.refresh_token))

  unfoldable pub issue : UserRow → Action AuthState AuthTokens
  unfolding generate_tokens store_refresh
  issue user = do
    tokens ← generate_tokens user.id user.email
    store_refresh user.id tokens
    pure tokens

  abbrev is_some {ℓ} : {A : Type ℓ} → Option A → Bool
  is_some none = false
  is_some (some a) = true

  abbrev session : UserRow → AuthTokens → AccountRow → ℕ → Session
  session user tokens account status = record {
    tokens = tokens;
    user = safe_user user;
    account = account;
    status_code = status;
  }

  -- authService.register
  unfoldable pub register :
      String → String → Option String → Option String → Action AuthState Session
  register email password phone name = do
    existing ← find_by_email email
    throw_if (is_some existing) (app (app_error ErrorCode.validation_error 400))
    user ← λ s. create_user email (p.hash s.draws password) phone name s
    tokens ← issue user
    account ← get_or_create_primary_account user.id
    pure (session user tokens account 201)

  -- authService.login
  unfoldable pub login : String → String → Action AuthState Session
  login email password = do
    row ← find_by_email email
    user ← or_throw row invalid_credentials
    throw_if (not user.is_active) unauthorized
    throw_if (not (p.matches password user.password_hash)) invalid_credentials
    tokens ← issue user
    account ← get_or_create_primary_account user.id
    pure (session user tokens account 200)

  -- What follows the test of the stored token.
  abbrev pub reissue : String → Action AuthState AuthTokens
  reissue user_id = do
    row ← find_user user_id
    user ← or_throw (active row) unauthorized
    issue user

  -- authService.refresh
  unfoldable pub refresh : String → Action AuthState AuthTokens
  refresh refresh_token = do
    user_id ← or_throw (p.verify refresh_token) (app (app_error ErrorCode.token_expired 401))
    stored ← on_redis (command (p.redis.get (Key.refresh user_id)))
    throw_if (is_revoked refresh_token stored) unauthorized
    reissue user_id

  -- authService.logout
  unfoldable pub logout : String → Action AuthState (Unit {0})
  logout user_id = on_redis (command (p.redis.del (Key.refresh user_id)))

  -- authService.getProfile
  unfoldable pub get_profile : String → Action AuthState SafeUser
  get_profile user_id = do
    found ← find_user user_id
    row ← or_throw found (app (app_error ErrorCode.unauthorized 404))
    pure (safe_user row)
