-- ===== src/Redis/Lock.antt =====
-- packages/redis/client.ts: acquireLock, releaseLock, acquireAccountLocks, releaseAllLocks.
pub mod Laws
use settlr.Prelude.{ℕ, Bool, true, false, List, [], ◌∷◌, String, text_le, if◌then◌else◌}
use settlr.Errors.{Result, ok, err}
use settlr.Action.{Action, ◌>>=◌, ◌>>◌, pure}
use settlr.Redis.{Redis, Key, command}

-- `[accountId1, accountId2].sort()`
abbrev pub sorted : String → String → String × String
sorted a b = if text_le a b then (a, b) else (b, a)

-- `{ acquired, lockKeys }`
pub record Locks : Type 0 where
  pub acquired : Bool
  pub lock_keys : List Key

abbrev pub no_locks : Locks
no_locks = record { acquired = false; lock_keys = [] }

abbrev pub both_locks : Key → Key → Locks
both_locks k l = record { acquired = true; lock_keys = k ∷ l ∷ [] }

module _ (r : Redis) where
  open r use {Store, set_nx, del}

  -- SET key "1" EX ttl NX replied 'OK'
  unfoldable pub acquire_lock : Key → ℕ → Action Store Bool
  acquire_lock k ttl = command (set_nx k "1" ttl)

  unfoldable pub release_lock : Key → Action Store (Unit {0})
  release_lock k = command (del k)

  -- What follows the second lock: if it is held elsewhere, the first is given back.
  unfoldable pub second_lock : Key → Key → Bool → Action Store Locks
  second_lock k l true = pure (both_locks k l)
  second_lock k l false = do release_lock k; pure no_locks

  -- What follows the first lock.
  unfoldable pub first_lock : Key → Key → ℕ → Bool → Action Store Locks
  first_lock k l ttl true = acquire_lock l ttl >>= second_lock k l
  first_lock k l ttl false = pure no_locks

  unfoldable pub acquire_account_locks : String → String → ℕ → Action Store Locks
  acquire_account_locks a b ttl =
      let k = Key.account_lock (sorted a b).0 in
      let l = Key.account_lock (sorted a b).1 in acquire_lock k ttl >>= first_lock k l ttl

  unfoldable pub release_all_locks : List Key → Action Store (Unit {0})
  release_all_locks [] = pure tt
  release_all_locks (k ∷ ks) = release_lock k >> release_all_locks ks
