-- ===== src/Ui/Connection/Single.antt =====
-- A component that mounts once has one connection at a time.
use settlr.Prelude.{
  ℕ, zero, suc, ◌+◌, ◌-◌, ◌^◌, ◌≤◌, ◌≡◌, ◌≢◌, refl, Bool, true, not, none, some, Option, List, [],
  ◌∷◌, length, leb, ◌==◌, All, arith, if-both,
}
use settlr.Ui.Connection.{
  Hook, Timeout, max_retries, fresh, without_timeout, clear_timeout, has_socket, connect, mount,
  unmount, delay_after, on_open, on_close, on_timeout, Failure, Life,
}
use settlr.Ui.Connection.Attempts.{without-shorter, without_timeout-shorter, clear_timeout-length}

-- Between one and thirty seconds.
abbrev pub IsDelay : Timeout → Type 0
IsDelay t = (1000 ≤ t.delay) × (t.delay ≤ 30000)

pow-positive : (n : ℕ) → 1 ≤ 2 ^ n
pow-positive zero = omega arith
pow-positive (suc n) = omega (arith, pow-positive n)

without_timeout-All :
    (n : ℕ) (ts : List Timeout) → All IsDelay ts → All IsDelay (without_timeout n ts)
unfolding without_timeout
without_timeout-All n [] a = tt
without_timeout-All n (t ∷ ts) a =
    let rest = without_timeout-All n ts a.1 in
    if-both (All IsDelay) (n == t.number) rest (a.0, rest)

clear_timeout-All :
    (o : Option ℕ) (ts : List Timeout) → All IsDelay ts → All IsDelay (clear_timeout o ts)
clear_timeout-All none ts a = a
clear_timeout-All (some n) ts a = without_timeout-All n ts a

module _ (constructs : ℕ → Bool) where
  -- What is true of a component that mounted once.
  pub record IsSingle (h : Hook) : Type 0 where
    pub one : length h.sockets + length h.timeouts ≤ 1
    pub few : h.retries + length h.sockets + length h.timeouts ≤ 10
    pub live : h.connected ≡ true → length h.sockets ≡ 1
    pub delays : All IsDelay h.timeouts

  connect-timeouts : (h : Hook) → (connect constructs h).timeouts ≡ h.timeouts
  unfolding connect
  connect-timeouts h = ground arith

  connect-IsSingle :
      (h : Hook)
      → length h.sockets + length h.timeouts ≡ 0
      → h.retries ≤ 10
      → h.connected ≢ true
      → All IsDelay h.timeouts
      → IsSingle (connect constructs h)
  unfolding connect
  connect-IsSingle h empty few off a = record {
    one = ground arith;
    few = ground arith;
    live = λ c. absurd (off (ground arith));
    delays = rw (connect-timeouts h) a;
  }

  delay-IsDelay : (i n : ℕ) → IsDelay (record { number = i; delay = delay_after constructs n })
  delay-IsDelay i n = (omega (arith, pow-positive (n - 1)), omega arith)

  close-IsSingle :
      (i : ℕ) (h : Hook)
      → has_socket i h.sockets ≡ true
      → IsSingle h
      → IsSingle (on_close constructs i h)
  unfolding on_close
  close-IsSingle i h has x =
      let shorter = without-shorter i h.sockets has in
      record {
        one = ground (arith, x.one);
        few = ground (arith, x.one, x.few);
        live = λ c. ground arith;
        delays =
            if-both (λ (u : Hook). All IsDelay u.timeouts) (not h.mounted) x.delays
              (if-both (λ (u : Hook). All IsDelay u.timeouts) (leb max_retries (suc h.retries))
                x.delays (delay-IsDelay h.timeouts_set (suc h.retries), x.delays));
      }

  Failure-IsSingle : {h h' : Hook} → Failure constructs h h' → IsSingle h → IsSingle h'
  unfolding on_timeout unmount
  Failure-IsSingle {h} (Failure.closes i has) x = close-IsSingle i h has x
  Failure-IsSingle {h} (Failure.fires n pending) x =
      let shorter = without_timeout-shorter n h.timeouts pending in
      connect-IsSingle (record h { timeouts = without_timeout n h.timeouts }) (omega (arith, x.one))
        (omega (arith, x.few)) (λ c. omega (arith, x.live c, x.one))
        (without_timeout-All n h.timeouts x.delays)
  Failure-IsSingle {h} (Failure.unmounts m) x =
      let shorter = clear_timeout-length h.reconnect_timeout h.timeouts in
      record {
        one = omega (arith, x.one);
        few = omega (arith, x.few);
        live = x.live;
        delays = clear_timeout-All h.reconnect_timeout h.timeouts x.delays;
      }

  open-IsSingle :
      (i : ℕ) (h : Hook)
      → has_socket i h.sockets ≡ true
      → IsSingle h
      → IsSingle (on_open constructs h)
  unfolding on_open
  open-IsSingle i h has x =
      let shorter = without-shorter i h.sockets has in
      record {
        one = ground (arith, x.one);
        few = ground (arith, x.one, x.few);
        live = λ c. ground (arith, x.one, x.live);
        delays = if-both (λ (u : Hook). All IsDelay u.timeouts) (not h.mounted) x.delays x.delays;
      }

  Life-IsSingle : {h h' : Hook} → Life constructs h h' → IsSingle h → IsSingle h'
  Life-IsSingle Life.begins x = x
  Life-IsSingle (Life.fails before f) x = Failure-IsSingle f (Life-IsSingle before x)
  Life-IsSingle (Life.opens {h'} i before has) x = open-IsSingle i h' has (Life-IsSingle before x)

  -- As long as a component has mounted only once, whatever its sockets and timeouts do, there is at
  -- most one socket that has not closed or one pending timeout, and not both; the failures since the
  -- last connection are at most ten; `connected` is only set while the socket is there; and every
  -- delay is between one and thirty seconds.
  pub mount-IsSingle : {h : Hook} → Life constructs (mount constructs fresh) h → IsSingle h
  unfolding mount
  mount-IsSingle life = Life-IsSingle life (
      connect-IsSingle (record fresh { mounted = true; retries = 0 }) refl (omega arith) (λ c. cc)
        tt)
