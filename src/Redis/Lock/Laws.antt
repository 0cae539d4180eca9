-- ===== src/Redis/Lock/Laws.antt =====
-- The pair of account locks: the order of the two accounts does not matter, a refusal leaves the
-- server as it was, and a release frees what was acquired.
use settlr.Prelude.{
  ℕ, ◌≡◌, ◌≢◌, sym, true, false, [], ◌∷◌, none, some, String, arith, text_le, text_le_total,
  text_le_antisymm, Bool-cases, inl, inr,
}
use settlr.Errors.{ok}
use settlr.Redis.{Redis, Key, Key-discrete}
use settlr.Redis.Lock.{
  sorted, Locks, acquire_lock, release_lock, second_lock, first_lock, acquire_account_locks,
  release_all_locks,
}

sorted_comm : (a b : String) → sorted a b ≡ sorted b a
sorted_comm a b = elim (Bool-cases (text_le a b)) [
  | inl le ↦ elim (Bool-cases (text_le b a)) [
    | inl ge ↦ rw (text_le_antisymm a b le ge)
    | inr lt ↦ rw (le, lt)
  ]
  | inr gt ↦ elim (text_le_total a b) [ inl le ↦ cc | inr ge ↦ rw (gt, ge) ]
]

module _ (r : Redis) where
  open r use {
    Store, value, set_nx, del, set_nx-won, set_nx-lost, set_nx-others, del-self, del-others,
  }

  -- Two payments between the same accounts, in either direction, ask for the same locks in the
  -- same order.
  pub acquire_account_locks_comm :
      (a b : String) (ttl : ℕ) (s : Store)
      → acquire_account_locks r a b ttl s ≡ acquire_account_locks r b a ttl s
  unfolding acquire_account_locks
  acquire_account_locks_comm a b ttl s = rw (sorted_comm a b)

  -- A lock that was won and is deleted again leaves no trace.
  won_then_del :
      (j k : Key) (ttl : ℕ) (s t : Store)
      → (set_nx k "1" ttl s).0 ≡ some true
      → ((i : Key) → value i t ≡ value i (set_nx k "1" ttl s).1)
      → (del k t).0 ≡ some tt
      → value j (del k t).1 ≡ value j s
  won_then_del j k ttl s t won same gone = elim (Key-discrete j k) [
    | yes e ↦ rw e (cc ((set_nx-won k "1" ttl s won).0, del-self k t gone))
    | no d ↦ cc (del-others j k t d, same j, set_nx-others j k "1" ttl s d)
  ]

  -- If the locks are refused, every key of the server holds what it held.
  pub acquire_account_locks-refused :
      (a b : String) (ttl : ℕ) (s : Store) (j : Key) {ls : Locks}
      → (acquire_account_locks r a b ttl s).0 ≡ ok ls
      → ls.acquired ≡ false
      → (ls.lock_keys ≡ []) × (value j (acquire_account_locks r a b ttl s).1 ≡ value j s)
  unfolding acquire_account_locks acquire_lock first_lock second_lock release_lock
  acquire_account_locks-refused a b ttl s j h k =
      let x = Key.account_lock (sorted a b).0 in
      let y = Key.account_lock (sorted a b).1 in
      let s' = (set_nx x "1" ttl s).1 in
      ground (
        arith,
        won_then_del j x ttl s (set_nx y "1" ttl s').1,
        set_nx-lost j x "1" ttl s,
        λ (i : Key). set_nx-lost i y "1" ttl s',
      )

  won_twice :
      (j k l : Key) (ttl : ℕ) (s : Store)
      → (set_nx k "1" ttl s).0 ≡ some true
      → let s' = (set_nx k "1" ttl s).1 in
        let s'' = (set_nx l "1" ttl s').1 in
        (set_nx l "1" ttl s').0 ≡ some true
        → (k ≢ l)
          × (value k s ≡ none)
          × (value l s ≡ none)
          × (value k s'' ≡ some "1")
          × (value l s'' ≡ some "1")
          × (j ≢ k → j ≢ l → value j s'' ≡ value j s)
  won_twice j k l ttl s h h' =
      let s' = (set_nx k "1" ttl s).1 in
      let first = set_nx-won k "1" ttl s h in
      let second = set_nx-won l "1" ttl s' h' in
      let ne : k ≢ l = λ e. cc (first.1, second.0, e) in
      (
        ne,
        first.0,
        cc (second.0, set_nx-others l k "1" ttl s (λ e. ne (sym e))),
        cc (first.1, set_nx-others k l "1" ttl s' ne),
        second.1,
        λ d d'. cc (set_nx-others j k "1" ttl s d, set_nx-others j l "1" ttl s' d'),
      )

  -- If both locks are acquired, neither was held before, both are held now, they are those of the
  -- two accounts in order, and no other key has changed.
  pub acquire_account_locks-acquired :
      (a b : String) (ttl : ℕ) (s : Store) (j : Key) {ls : Locks}
      → (acquire_account_locks r a b ttl s).0 ≡ ok ls
      → ls.acquired ≡ true
      → let x = Key.account_lock (sorted a b).0 in
        let y = Key.account_lock (sorted a b).1 in
        let s' = (acquire_account_locks r a b ttl s).1 in
        (ls.lock_keys ≡ x ∷ y ∷ [])
        × (x ≢ y)
        × (value x s ≡ none)
        × (value y s ≡ none)
        × (value x s' ≡ some "1")
        × (value y s' ≡ some "1")
        × (j ≢ x → j ≢ y → value j s' ≡ value j s)
  unfolding acquire_account_locks acquire_lock first_lock second_lock release_lock
  acquire_account_locks-acquired a b ttl s j h k =
      let x = Key.account_lock (sorted a b).0 in
      let y = Key.account_lock (sorted a b).1 in ground (arith, won_twice j x y ttl s)

  del_twice :
      (j k l : Key) (s : Store)
      → (del k s).0 ≡ some tt
      → let s' = (del k s).1 in
        let s'' = (del l s').1 in
        (del l s').0 ≡ some tt
        → (value k s'' ≡ none) × (value l s'' ≡ none) × (j ≢ k → j ≢ l → value j s'' ≡ value j s)
  del_twice j k l s h h' =
      let s' = (del k s).1 in
      (
        elim (Key-discrete k l) [
          | yes e ↦ cc (del-self l s' h')
          | no d ↦ cc (del-others k l s' d, del-self k s h)
        ],
        del-self l s' h',
        λ d d'. cc (del-others j k s d, del-others j l s' d'),
      )

  -- After the release of two locks, neither is held and no other key has changed.
  pub release_all_locks-both :
      (j k l : Key) (s : Store)
      → (release_all_locks r (k ∷ l ∷ []) s).0 ≡ ok tt
      → let s' = (release_all_locks r (k ∷ l ∷ []) s).1 in
        (value k s' ≡ none) × (value l s' ≡ none) × (j ≢ k → j ≢ l → value j s' ≡ value j s)
  unfolding release_all_locks release_lock
  release_all_locks-both j k l s h = ground (arith, del_twice j k l s)
