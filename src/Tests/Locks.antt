-- ===== src/Tests/Locks.antt =====
-- The locks of two accounts at concrete inputs.
use settlr.Prelude.{◌≡◌, refl, true, false, [], ◌∷◌, some, text-discrete}
use native.Mathlib.Decide.{ℕ_discrete}
use settlr.Errors.{ok}
use settlr.Redis.{Key, Key-discrete}
use settlr.Redis.Memory.{memory, Cells, empty, write}
use settlr.Redis.Lock.{
  Locks, acquire_account_locks, acquire_lock, release_lock, first_lock, second_lock,
  release_all_locks,
}

abbrev a : Key
a = Key.account_lock "a"

abbrev b : Key
b = Key.account_lock "b"

abbrev held : Locks
held = record { acquired = true; lock_keys = a ∷ b ∷ [] }

-- Another payment holds the lock of the second account.
abbrev busy : Cells
busy = write b (some "1") empty

acquire_run : (acquire_account_locks memory "b" "a" 10 empty).0 ≡ ok held
unfolding acquire_account_locks acquire_lock first_lock second_lock release_lock Key-discrete
    text-discrete ℕ_discrete
acquire_run = refl

refused_run :
    (acquire_account_locks memory "b" "a" 10 busy).0
    ≡ ok (record { acquired = false; lock_keys = [] })
unfolding acquire_account_locks acquire_lock first_lock second_lock release_lock Key-discrete
    text-discrete ℕ_discrete
refused_run = refl

release_run : (release_all_locks memory (a ∷ b ∷ []) busy).0 ≡ ok tt
unfolding release_all_locks release_lock
release_run = refl
