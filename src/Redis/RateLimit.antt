-- ===== src/Redis/RateLimit.antt =====
-- packages/redis/client.ts: slidingWindowRateLimit. Its three commands are a parameter. A key is the
-- identifier with the number of the window, and no window's counter expires while it is counted.
pub mod Counting
use settlr.Prelude.{
  ℕ, ℤ, suc, ◌+◌, ◌-◌, ◌/◌, ◌≡◌, Bool, true, false, Option, none, some, String, ltb, ◌==◌,
  if◌then◌else◌,
}
use settlr.Action.{Action, pure, ◌>>=◌, ◌>>◌}
use settlr.Redis.{Command, command}

-- ratelimit:<identifier>:<window>
pub record Window : Type 0 where
  pub identifier : String
  pub start : ℕ

-- PTTL replies a negative number for a key without expiry, or without value.
pub record Limiter : Type 1 where
  pub Store : Type 0
  pub counter : Window → Store → ℕ
  pub incr : Window → Command Store ℕ
  pub pexpire : Window → ℕ → Command Store (Unit {0})
  pub pttl : Window → Command Store ℤ
  pub incr-counter :
      (k : Window) (s : Store) {n : ℕ}
      → (incr k s).0 ≡ some n
      → (n ≡ suc (counter k s)) × (counter k (incr k s).1 ≡ n)
  pub pexpire-counter : (k : Window) (n : ℕ) (s : Store) → counter k (pexpire k n s).1 ≡ counter k s
  pub pttl-counter : (k : Window) (s : Store) → counter k (pttl k s).1 ≡ counter k s

pub record Decision : Type 0 where
  pub allowed : Bool
  pub remaining : ℕ
  pub retry_after_seconds : Option ℕ

-- Math.ceil(ttl / 1000), or 1 where that is not positive.
abbrev pub retry_after : ℤ → ℕ
retry_after (ℤ.pos ttl) = let seconds = (ttl + 999) / 1000 in if ltb 0 seconds then seconds else 1
retry_after (ℤ.negsuc n) = 1

module _ (l : Limiter) where
  -- The expiry is set by the first request of a window.
  abbrev pub expire_first : Window → ℕ → ℕ → Action l.Store (Unit {0})
  expire_first key window_ms count =
      if count == 1 then command (l.pexpire key window_ms) else pure tt

  abbrev pub refuse : Window → Action l.Store Decision
  refuse key = do
    ttl ← command (l.pttl key)
    pure (record { allowed = false; remaining = 0; retry_after_seconds = some (retry_after ttl) })

  abbrev pub decide : Window → ℕ → ℕ → Action l.Store Decision
  decide key max_requests count =
      if ltb max_requests count
      then refuse key
      else pure
          (record { allowed = true; remaining = max_requests - count; retry_after_seconds = none })

  -- slidingWindowRateLimit
  unfoldable pub sliding_window_rate_limit : ℕ → String → ℕ → ℕ → Action l.Store Decision
  sliding_window_rate_limit now identifier window_ms max_requests = do
    let key : Window = record { identifier = identifier; start = now / window_ms }
    count ← command (l.incr key)
    expire_first key window_ms count
    decide key max_requests count
