-- ===== src/Redis/RateLimit/Counting.antt =====
-- What a window lets through.
use settlr.Prelude.{
  ℕ, ℤ, suc, ◌-◌, ◌/◌, ◌≤◌, ◌<◌, ◌≡◌, ◌↔◌, inl, inr, true, false, Option, none, some, Option-cases,
  String, arith,
}
use settlr.Errors.{ok}
use settlr.Redis.RateLimit.{Window, Limiter, Decision, retry_after, sliding_window_rate_limit}

abbrev pub seconds : Option ℕ → ℕ
seconds none = 0
seconds (some n) = n

retry_after-positive : (ttl : ℤ) → 1 ≤ retry_after ttl
retry_after-positive (ℤ.pos ttl) = ground arith
retry_after-positive (ℤ.negsuc n) = omega arith

-- A decision that is returned counts the request in the window of `now`; it is allowed exactly if
-- the window had counted fewer than `max_requests`, and says how many are left; exactly a
-- refusal names at least one second.
pub sliding_window_rate_limit-counts :
    (l : Limiter) (now : ℕ) (identifier : String) (window_ms max_requests : ℕ) (s : l.Store)
    (d : Decision)
    → (sliding_window_rate_limit l now identifier window_ms max_requests s).0 ≡ ok d
    → let key : Window = record { identifier = identifier; start = now / window_ms } in
      let s' = (sliding_window_rate_limit l now identifier window_ms max_requests s).1 in
      (l.counter key s' ≡ suc (l.counter key s))
      × ((d.allowed ≡ true) ↔ (l.counter key s < max_requests))
      × (d.remaining ≡ max_requests - l.counter key s')
      × ((1 ≤ seconds d.retry_after_seconds) ↔ (d.allowed ≡ false))
unfolding sliding_window_rate_limit
sliding_window_rate_limit-counts l now identifier window_ms max_requests s d h =
    let key : Window = record { identifier = identifier; start = now / window_ms } in
    let s1 = (l.incr key s).1 in
    let s2 = (l.pexpire key window_ms s1).1 in
    elim (Option-cases (l.incr key s).0) [
      | inl failed ↦ ground arith
      | inr (n, replied) ↦
          let count = l.incr-counter key s replied in
          let renewed = l.pexpire-counter key window_ms s1 in
          let read = l.pttl-counter key s1 in
          let read' = l.pttl-counter key s2 in
          (
            ground (arith, count, renewed, read, read'),
            ground (arith, count),
            ground (arith, count, renewed, read, read'),
            ground (arith, count),
          )
    ]
