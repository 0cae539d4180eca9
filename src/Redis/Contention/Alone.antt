-- ===== src/Redis/Contention/Alone.antt =====
-- A call of acquireAccountLocks, and one of releaseAllLocks, as steps of one payment.
use settlr.Prelude.{ℕ, ◌≡◌, refl, ap, subst, Bool, true, false, [], ◌∷◌, String, if◌then◌else◌}
use settlr.Errors.{Result, ok, err}
use settlr.Action.{continue, pure}
use settlr.Redis.{Redis, Key}
use settlr.Redis.Lock.{
  sorted, Locks, no_locks, acquire_lock, release_lock, second_lock, first_lock,
  acquire_account_locks, release_all_locks,
}
use settlr.Redis.Contention.{Pc, Move}

-- Where the payment of `a` and `b` stands after the call.
abbrev pub acquired_pc : String → String → Result Locks → Pc
acquired_pc a b (ok ls) = if ls.acquired then Pc.inside (sorted a b).0 (sorted a b).1 else Pc.idle
acquired_pc a b (err _) = Pc.idle

module _ (r : Redis) (Fails : Type 0) (Expires : String → Type 0) (ttl : ℕ) where
  open r use {Store}

  pub data Moves (s : Store) (p : Pc) : Store → Pc → Type 0 where
    done : Moves s p s p
    more :
        {t u : Store} {p' q : Pc}
        → Moves s p t p'
        → Move r Fails Expires ttl t p' u q
        → Moves s p u q

  reached :
      {A : Type 0} {s t : Store} {p p' q : Pc} {o o' : Result A × Store}
      → o ≡ o'
      → Moves s p t p'
      → (o.0 ≡ o'.0 → Move r Fails Expires ttl t p' o.1 q)
      → Moves s p o'.1 q
  reached {s} {p} {q} e m f =
      subst (λ v. Moves s p v q) (ap (λ o. o.1) e) (more m (f (ap (λ o. o.0) e)))

  module _ (fails : Fails) (a b : String) (s : Store) where
    back-Moves :
        {t : Store} (o : Result (Unit {0}) × Store)
        → release_lock r (Key.account_lock (sorted a b).0) t ≡ o
        → Moves s Pc.idle t (Pc.back (sorted a b).0 (sorted a b).1)
        → let q = continue o (λ _. pure no_locks) in Moves s Pc.idle q.1 (acquired_pc a b q.0)
    back-Moves (ok tt, u) e m = reached e m Move.given_back
    back-Moves (err _, u) e m = reached e m (Move.back_failed fails)

    second-Moves :
        {t : Store} (o : Result Bool × Store)
        → acquire_lock r (Key.account_lock (sorted a b).1) ttl t ≡ o
        → Moves s Pc.idle t (Pc.second (sorted a b).0 (sorted a b).1)
        → let q =
            continue o
              (second_lock r (Key.account_lock (sorted a b).0) (Key.account_lock (sorted a b).1)) in
          Moves s Pc.idle q.1 (acquired_pc a b q.0)
    unfolding second_lock
    second-Moves (ok true, u) e m = reached e m Move.second_won
    second-Moves (ok false, u) e m = back-Moves _ refl (reached e m Move.second_lost)
    second-Moves (err _, u) e m = reached e m (Move.second_failed fails)

    first-Moves :
        (o : Result Bool × Store)
        → acquire_lock r (Key.account_lock (sorted a b).0) ttl s ≡ o
        → let q = continue o (
            first_lock r (Key.account_lock (sorted a b).0) (Key.account_lock (sorted a b).1) ttl) in
          Moves s Pc.idle q.1 (acquired_pc a b q.0)
    unfolding first_lock
    first-Moves (ok true, u) e =
        second-Moves _ refl (reached e (more done (Move.begin a b)) Move.first_won)
    first-Moves (ok false, u) e = reached e (more done (Move.begin a b)) Move.first_lost
    first-Moves (err _, u) e = reached e (more done (Move.begin a b)) (Move.first_failed fails)

    last-Moves :
        {x : String} {t : Store} {p : Pc} (o : Result (Unit {0}) × Store)
        → release_lock r (Key.account_lock x) t ≡ o
        → Moves s p t (Pc.leaving x)
        → Moves s p (continue o (λ _. pure {A = Unit {0}} tt)).1 Pc.idle
    last-Moves (ok tt, u) e m = reached e m Move.released_second
    last-Moves (err _, u) e m = reached e m (Move.last_failed fails)

    release-Moves :
        {x y : String} (o : Result (Unit {0}) × Store)
        → release_lock r (Key.account_lock x) s ≡ o
        → Moves s
            (Pc.inside x y)
            (continue o (λ _. release_all_locks r (Key.account_lock y ∷ []))).1
            Pc.idle
    unfolding release_all_locks
    release-Moves (ok tt, u) e = last-Moves _ refl (reached e done Move.released_first)
    release-Moves (err _, u) e = reached e done (Move.release_failed fails)

    -- Whatever Redis replies, a call of acquireAccountLocks is a sequence of steps of one payment from
    -- the state before it to the state after it, which owns both locks if the call returned that they
    -- were acquired, and none if it returned that they were not, or threw; and a call of
    -- releaseAllLocks on two account locks is a sequence of steps of a payment that owns them, which
    -- leads to one that owns none.
    pub acquire_account_locks-Moves :
        let q = acquire_account_locks r a b ttl s in
        Moves s Pc.idle q.1 (acquired_pc a b q.0)
        × ((x y : String)
            → Moves s
                (Pc.inside x y)
                (release_all_locks r (Key.account_lock x ∷ Key.account_lock y ∷ []) s).1
                Pc.idle)
    unfolding acquire_account_locks release_all_locks
    acquire_account_locks-Moves = (first-Moves _ refl, λ x y. release-Moves _ refl)
