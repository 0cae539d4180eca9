-- ===== src/Tests/Contention.antt =====
-- Two payments of one pair of accounts at one server.
use settlr.Prelude.{ℕ, ◌≡◌, ◌≢◌, ◌↔◌, refl, true, [], ◌∷◌, none, some, String, text-discrete}
use native.Mathlib.Decide.{ℕ_discrete}
use settlr.Redis.{Key, Key-discrete}
use settlr.Redis.Memory.{memory, Cells, empty, write, write-others}
use settlr.Redis.Lock.{acquire_lock, release_lock, acquire_account_locks, release_all_locks}
use settlr.Redis.Contention.{Pc, owns_lock, update, Move, Step, Reach}
use settlr.Redis.Contention.Exclusion.{acquire_account_locks-exclude}
use settlr.Redis.Contention.Owners.{account_lock-owned}
use settlr.Redis.Contention.Alone.{Moves, acquired_pc, acquire_account_locks-Moves}

abbrev a : Key
a = Key.account_lock "a"

abbrev b : Key
b = Key.account_lock "b"

abbrev both : Cells
both = write b (some "1") (write a (some "1") empty)

abbrev contending : ℕ → Pc
contending =
    update
      (update (update (update (λ _. Pc.idle) 0 (Pc.first "a" "b")) 0 (Pc.second "a" "b")) 0
        (Pc.inside "a" "b"))
      1 (Pc.first "a" "b")

-- Payment 0 owns both locks, payment 1 is about to ask for the first.
Reach-contending :
    (Fails : Type 0) (Expires : String → Type 0) → Reach memory Fails Expires 10 both contending
unfolding acquire_lock Key-discrete text-discrete ℕ_discrete
Reach-contending Fails Expires =
    Reach.later
      (Reach.later
        (Reach.later
          (Reach.later (Reach.start {s = empty} (λ z. refl)) (Step.pick 0 (Move.begin "b" "a")))
          (Step.pick 0 (Move.first_won refl)))
        (Step.pick 0 (Move.second_won refl)))
      (Step.pick 1 (Move.begin "a" "b"))

never : ¬ ⊥
never f = f

inside_a : owns_lock (contending 0) "a" ≡ true
unfolding owns_lock text-discrete ℕ_discrete
inside_a = refl

acquire_account_locks-exclude_example : ◌≡◌ {A = ℕ} 0 0
acquire_account_locks-exclude_example =
    acquire_account_locks-exclude memory (Unit {0}) (λ z. z ≢ "a") 10 "a" (λ d. d refl)
      (Reach-contending (Unit {0}) (λ z. z ≢ "a")) 0 0 inside_a inside_a

account_lock-owned_example : (both a ≢ none) ↔ ((i : ℕ) × (owns_lock (contending i) "a" ≡ true))
account_lock-owned_example = account_lock-owned memory "a" never never (Reach-contending ⊥ (λ _. ⊥))

acquire_account_locks-Moves_example :
    let q = acquire_account_locks memory "b" "a" 10 empty in
    Moves memory (Unit {0}) (λ _. ⊥) 10 empty Pc.idle q.1 (acquired_pc "b" "a" q.0)
    × ((x y : String)
        → Moves memory
            (Unit {0})
            (λ _. ⊥)
            10
            empty
            (Pc.inside x y)
            (release_all_locks memory (Key.account_lock x ∷ Key.account_lock y ∷ []) empty).1
            Pc.idle)
acquire_account_locks-Moves_example =
    acquire_account_locks-Moves memory (Unit {0}) (λ _. ⊥) 10 tt "b" "a" empty

abbrev expired : Cells
expired = write b none (write a none both)

abbrev again : Cells
again = write b (some "1") (write a (some "1") expired)

abbrev overlapping : ℕ → Pc
overlapping =
    update (update (update contending 1 (Pc.second "a" "b")) 1 (Pc.inside "a" "b")) 0
      (Pc.leaving "b")

others_kept :
    {x : String} (s : Cells) (z : String)
    → z ≢ x
    → write (Key.account_lock x) none s (Key.account_lock z) ≡ s (Key.account_lock z)
others_kept {x} s z d = write-others (Key.account_lock z) (Key.account_lock x) none s (λ e. d cc)

-- If payment 0 takes longer than the time to live, payment 1 gets the same locks, and payment 0 then
-- deletes the lock that payment 1 owns.
expired_overlap :
    Reach memory ⊥ (λ _. Unit) 10 (write a none again) overlapping
    × (owns_lock (overlapping 1) "a" ≡ true)
    × (write a none again a ≡ none)
unfolding acquire_lock release_lock owns_lock Key-discrete text-discrete ℕ_discrete
expired_overlap = (
  Reach.later
      (Reach.later
        (Reach.later
          (Reach.later
            (Reach.later (Reach-contending ⊥ (λ _. Unit))
              (Step.expire "a" {t = write a none both} tt refl (others_kept both)))
            (Step.expire "b" {t = expired} tt refl (others_kept (write a none both))))
          (Step.pick 1 (Move.first_won refl)))
        (Step.pick 1 (Move.second_won refl)))
      (Step.pick 0 (Move.released_first refl)),
  refl,
  refl,
)
