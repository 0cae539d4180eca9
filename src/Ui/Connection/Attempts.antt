-- ===== src/Ui/Connection/Attempts.antt =====
-- While no connection opens, the hook gives up.
use settlr.Prelude.{
  ℕ, suc, ◌+◌, ◌≤◌, ◌≡◌, Bool, true, Option, none, some, List, [], ◌∷◌, length, min, arith,
}
use settlr.Ui.Connection.{
  Hook, Timeout, without, without_timeout, clear_timeout, has_socket, is_pending, connect, mount,
  unmount, on_close, on_timeout, Failure, Failures,
}

pub without-length : (i : ℕ) (is : List ℕ) → length (without i is) ≤ length is
unfolding without
without-length i [] = omega arith
without-length i (j ∷ is) = ground (arith, without-length i is)

pub without-shorter :
    (i : ℕ) (is : List ℕ) → has_socket i is ≡ true → suc (length (without i is)) ≤ length is
unfolding without
without-shorter i [] h = cc
without-shorter i (j ∷ is) h = ground (arith, without-shorter i is, without-length i is)

pub without_timeout-length : (n : ℕ) (ts : List Timeout) → length (without_timeout n ts) ≤ length ts
unfolding without_timeout
without_timeout-length n [] = omega arith
without_timeout-length n (t ∷ ts) = ground (arith, without_timeout-length n ts)

pub without_timeout-shorter :
    (n : ℕ) (ts : List Timeout)
    → is_pending n ts ≡ true
    → suc (length (without_timeout n ts)) ≤ length ts
unfolding without_timeout
without_timeout-shorter n [] h = cc
without_timeout-shorter n (t ∷ ts) h =
    ground (arith, without_timeout-shorter n ts, without_timeout-length n ts)

pub clear_timeout-length :
    (o : Option ℕ) (ts : List Timeout) → length (clear_timeout o ts) ≤ length ts
clear_timeout-length none ts = omega arith
clear_timeout-length (some n) ts = without_timeout-length n ts

module _ (constructs : ℕ → Bool) where
  -- The attempts made and those that are planned, against the failures.
  abbrev Pays : ℕ → Hook → Type 0
  Pays a h = h.attempts + length h.timeouts ≤ a + min h.retries 9

  connect-attempts :
      (h : Hook)
      → (connect constructs h).attempts + length (connect constructs h).timeouts
        ≤ suc (h.attempts + length h.timeouts)
  unfolding connect
  connect-attempts h = ground arith

  Failure-Pays : (a : ℕ) {h h' : Hook} → Failure constructs h h' → Pays a h → Pays a h'
  unfolding on_close on_timeout unmount
  Failure-Pays a {h} (Failure.closes i has) p = ground arith
  Failure-Pays a {h} (Failure.fires n pending) p =
      ground (arith, without_timeout-shorter n h.timeouts pending)
  Failure-Pays a {h} (Failure.unmounts m) p =
      omega (arith, clear_timeout-length h.reconnect_timeout h.timeouts)

  Failures-Pays : (a : ℕ) {h h' : Hook} → Failures constructs h h' → Pays a h → Pays a h'
  Failures-Pays a Failures.none_yet p = p
  Failures-Pays a (Failures.one_more before f) p = Failure-Pays a f (Failures-Pays a before p)

  mount-Pays : (h : Hook) → Pays (suc (h.attempts + length h.timeouts)) (mount constructs h)
  unfolding mount
  mount-Pays h = omega (arith, connect-attempts (record h { mounted = true; retries = 0 }))

  -- From a mount on, as long as no connection opens and the component does not mount again, at most
  -- ten sockets are constructed, and one more for every timeout that was pending before, in whatever
  -- order sockets close, timeouts run and the component unmounts.
  pub mount-attempts :
      (h : Hook) {h' : Hook}
      → Failures constructs (mount constructs h) h'
      → h'.attempts ≤ h.attempts + length h.timeouts + 10
  mount-attempts h fs =
      omega (arith, Failures-Pays (suc (h.attempts + length h.timeouts)) fs (mount-Pays h))
