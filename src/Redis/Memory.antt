-- ===== src/Redis/Memory.antt =====
-- A server that always replies: it shows that the laws of `Redis` can hold, and runs the tests.
use settlr.Prelude.{◌≡◌, ◌≢◌, refl, Bool, true, false, Option, none, some, String}
use mathlib.Core.Logic.{ite, if_pos, if_neg}
use settlr.Redis.{Redis, Key, Key-discrete}

abbrev pub Cells : Type 0
Cells = Key → Option String

-- No key is set.
abbrev pub empty : Cells
empty k = none

abbrev pub write : Key → Option String → Cells → Cells
write k v s j = ite (Key-discrete j k) v (s j)

pub write_self : (k : Key) (v : Option String) (s : Cells) → write k v s k ≡ v
write_self k v s = if_pos (Key-discrete k k) refl v (s k)

pub write-others : (j k : Key) (v : Option String) (s : Cells) → j ≢ k → write k v s j ≡ s j
write-others j k v s d = if_neg (Key-discrete j k) d v (s j)

abbrev claim : Key → String → Option String → Cells → Option Bool × Cells
claim k v none s = (some true, write k (some v) s)
claim k v (some _) s = (some false, s)

pub claim-won :
    (k : Key) (v : String) (s : Cells) (o : Option String)
    → s k ≡ o
    → (claim k v o s).0 ≡ some true
    → (s k ≡ none) × ((claim k v o s).1 k ≡ some v)
claim-won k v s none e h = (e, write_self k (some v) s)
claim-won k v s (some u) e h = cc

pub claim-lost :
    (j k : Key) (v : String) (s : Cells) (o : Option String)
    → s k ≡ o
    → (claim k v o s).0 ≡ some false
    → (s k ≢ none) × ((claim k v o s).1 j ≡ s j)
claim-lost j k v s none e h = cc
claim-lost j k v s (some u) e h = (λ n. cc, refl)

pub claim-others :
    (j k : Key) (v : String) (s : Cells) (o : Option String) → j ≢ k → (claim k v o s).1 j ≡ s j
claim-others j k v s none d = write-others j k (some v) s d
claim-others j k v s (some u) d = refl

pub claim-keeps :
    (k : Key) (v : String) (s : Cells) (o : Option String)
    → s k ≡ o
    → s k ≢ none
    → (claim k v o s).1 k ≡ s k
claim-keeps k v s none e h = absurd (h e)
claim-keeps k v s (some u) e h = refl

pub found_value : {u v : Option String} → Option.some u ≡ some v → v ≡ u
found_value h = cc

abbrev pub memory : Redis
memory = record {
  Store = Cells;
  value = λ k s. s k;
  get = λ k s. (some (s k), s);
  set_nx = λ k v n s. claim k v (s k) s;
  setex = λ k n v s. (some tt, write k (some v) s);
  del = λ k s. (some tt, write k none s);
  get-value = λ k s h. found_value h;
  get-others = λ j k s. refl;
  set_nx-won = λ k v n s h. claim-won k v s (s k) refl h;
  set_nx-lost = λ j k v n s h. claim-lost j k v s (s k) refl h;
  set_nx-others = λ j k v n s d. claim-others j k v s (s k) d;
  set_nx-keeps = λ k v n s h. claim-keeps k v s (s k) refl h;
  setex-self = λ k n v s h. write_self k (some v) s;
  setex-others = λ j k n v s d. write-others j k (some v) s d;
  del-self = λ k s h. write_self k none s;
  del-others = λ j k s d. write-others j k none s d;
}
