-- ===== src/Tests/Access.antt =====
-- A user with one session, and a transaction that the user may read.
use settlr.Prelude.{find, ◌≡◌, ◌≢◌, refl, true, ◌||◌, [], ◌∷◌, Option, none, some, String, eq_iff}
use native.Mathlib.Decide.{ℕ_discrete}
use settlr.Prelude.{text-discrete}
use settlr.Errors.{ok, err}
use settlr.Redis.{Key, Key-discrete}
use settlr.Redis.Memory.{memory, empty, write}
use settlr.Database.{Tables, parse_bigint}
use settlr.Payment.Repository.{find_by_id, select_account, read_row}
use settlr.Payment.Query.{
  TransactionView, find_entries, find_signals_unordered, check_access, get_transaction,
}
use settlr.Payment.Query.Access.{get_transaction-owner, owns}
use settlr.Auth.{
  is_user, UserRow, AuthTokens, AuthPlatform, AuthState, unauthorized, find_user, generate_tokens,
  store_refresh, issue, refresh, reissue, logout,
}
use settlr.Auth.Race.{logout-overtaken}
use settlr.Auth.Rotation.{refresh-rotates, logout-revokes}
use settlr.Tests.Payment.{platform, tables, written}

abbrev ledger : Tables
ledger = record tables { transactions = written "b" 30 ∷ [] }

abbrev view : TransactionView
view = record { transaction = written "b" 30; fraud_signals = []; ledger = [] }

view_run : (get_transaction platform "uuid" "u" ledger).0 ≡ ok view
unfolding get_transaction find_by_id find_entries find_signals_unordered check_access select_account
    read_row parse_bigint
view_run = refl

get_transaction-owner_example :
    (ok (some (written "b" 30)) ≡ (find_by_id platform "uuid" ledger).0)
    × ((owns "u" (select_account platform "a" ledger).0
          || owns "u" (select_account platform "b" ledger).0)
        ≡ true)
get_transaction-owner_example = get_transaction-owner platform "uuid" "u" ledger view view_run

-- The second token of a user is "new".
abbrev authority : AuthPlatform
authority = record {
  redis = memory;
  sign_access = λ user email. "access";
  sign_refresh = λ user email id. "new";
  verify = λ token. some "u";
  hash = λ n password. "hash";
  matches = λ password hash. true;
  random_uuid = λ n. "id";
  now = 0;
}

abbrev user : UserRow
user = record {
  id = "u";
  email = "u@example.com";
  password_hash = "hash";
  phone = none;
  name = none;
  kyc_status = "pending";
  is_active = true;
  created_at = 0;
  updated_at = 0;
}

abbrev logged_in : AuthState authority
logged_in = record {
  store = write (Key.refresh "u") (some "old") empty;
  users = user ∷ [];
  accounts = [];
  draws = 0;
}

abbrev rotated : AuthTokens
rotated = record { access_token = "access"; refresh_token = "new" }

refresh_run : (refresh authority "old" logged_in).0 ≡ ok rotated
unfolding refresh find_user issue generate_tokens store_refresh Key-discrete text-discrete
    ℕ_discrete
refresh_run = refl

refresh-rotates_example :
    let s' = (refresh authority "old" logged_in).1 in
    (memory.value (Key.refresh "u") logged_in.store ≡ some "old")
    × ((row : UserRow) × (find (is_user "u") logged_in.users ≡ some row) × (row.is_active ≡ true))
    × (memory.value (Key.refresh "u") s'.store ≡ some "new")
    × (s'.users ≡ user ∷ [])
    × (s'.accounts ≡ [])
refresh-rotates_example = refresh-rotates authority "old" "u" logged_in rotated refresh_run refl

abbrev old_text : String
old_text = "old"

abbrev stale_text : String
stale_text = "stale"

stale_differs : memory.value (Key.refresh "u") logged_in.store ≢ some stale_text
unfolding Key-discrete text-discrete ℕ_discrete
stale_differs e = cc ((eq_iff old_text stale_text).1 (found e))
  where
    found : Option.some old_text ≡ some stale_text → old_text ≡ stale_text
    found h = cc

logout_run : (logout authority "u" logged_in).0 ≡ ok tt
unfolding logout
logout_run = refl

logout_answers : (memory.get (Key.refresh "u") (logout authority "u" logged_in).1.store).0 ≢ none
logout_answers e = cc

logout-revokes_example :
    (refresh authority "old" (logout authority "u" logged_in).1).0 ≡ err unauthorized
logout-revokes_example = logout-revokes authority "old" "u" logged_in logout_run refl logout_answers

abbrev gone : AuthState authority
gone = (logout authority "u" logged_in).1

reissue_run : (reissue authority "u" gone).0 ≡ ok rotated
unfolding logout find_user issue generate_tokens store_refresh Key-discrete text-discrete ℕ_discrete
reissue_run = refl

logout-overtaken_example :
    (memory.value (Key.refresh "u") gone.store ≡ none)
    × (memory.value (Key.refresh "u") (reissue authority "u" gone).1.store ≡ some "new")
logout-overtaken_example = logout-overtaken authority "u" logged_in rotated logout_run reissue_run
