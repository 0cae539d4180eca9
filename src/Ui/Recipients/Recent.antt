-- ===== src/Ui/Recipients/Recent.antt =====
-- Which recent recipients are offered.
use settlr.Prelude.{
  ℕ, zero, suc, ◌≤◌, ◌≡◌, ◌⊎◌, inl, inr, refl, sym, subst, length-take, true, false, Option, none,
  some, List, [], ◌∷◌, ◌++◌, String, same_text, take, length, All, All-take, All-append, eq_iff,
  Bool-cases, if◌then◌else◌, arith,
}
use settlr.Payment.Handler.{present}
use settlr.Ui.Recipients.{
  RecentTransaction, OfferedRecipient, counterparty, has_recipient, offered, add_named,
  add_recipient, add_all, recent_of, recent_recipients,
}

-- One of the transactions names the recipient as the other side.
abbrev pub IsNamed : String → List RecentTransaction → String → String → Type 0
IsNamed account [] i name = ⊥
IsNamed account (txn ∷ txns) i name =
    (((counterparty account txn).0 ≡ i) × (present (counterparty account txn).1 ≡ some name))
    ⊎ IsNamed account txns i name

abbrev pub AreApart : List OfferedRecipient → Type 0
AreApart [] = Unit {0}
AreApart (r ∷ rs) = (has_recipient r.id rs ≡ false) × AreApart rs

has_recipient-last :
    (i : String) (rs : List OfferedRecipient) (r : OfferedRecipient)
    → has_recipient i (rs ++ r ∷ []) ≡ (if has_recipient i rs then true else same_text r.id i)
has_recipient-last i [] r = ground arith
has_recipient-last i (x ∷ rs) r = ground (arith, has_recipient-last i rs r)

AreApart-last :
    (rs : List OfferedRecipient) (r : OfferedRecipient)
    → has_recipient r.id rs ≡ false
    → AreApart rs
    → AreApart (rs ++ r ∷ [])
AreApart-last [] r h a = (refl, tt)
AreApart-last (x ∷ rs) r h a = (
  ground (arith, has_recipient-last x.id rs r, a.0, (eq_iff x.id r.id), (eq_iff r.id x.id)),
  AreApart-last rs r (ground arith) a.1,
)

take-absent :
    (i : String) (n : ℕ) (rs : List OfferedRecipient)
    → has_recipient i rs ≡ false
    → has_recipient i (take n rs) ≡ false
take-absent i zero rs h = refl
take-absent i (suc n) [] h = refl
take-absent i (suc n) (r ∷ rs) h = ground (arith, take-absent i n rs)

AreApart-take : (n : ℕ) (rs : List OfferedRecipient) → AreApart rs → AreApart (take n rs)
AreApart-take zero rs a = tt
AreApart-take (suc n) [] a = tt
AreApart-take (suc n) (r ∷ rs) a = (take-absent r.id n rs a.0, AreApart-take n rs a.1)

take-has_recipient :
    (i : String) (n : ℕ) (rs : List OfferedRecipient)
    → has_recipient i rs ≡ true
    → (has_recipient i (take n rs) ≡ true) ⊎ (length (take n rs) ≡ n)
take-has_recipient i zero rs h = inr refl
take-has_recipient i (suc n) [] h = cc
take-has_recipient i (suc n) (r ∷ rs) h = ground (arith, take-has_recipient i n rs)

module _ (shown : String → String) (trimmed_length : String → ℕ) (account : String) where
  -- One transaction more: the recipients stay apart, those that were there stay, and a new one is the
  -- other side that the transaction names.
  record Added (txn : RecentTransaction) (rs rs' : List OfferedRecipient) : Type 1 where
    apart : AreApart rs → AreApart rs'
    kept : (i : String) → has_recipient i rs ≡ true → has_recipient i rs' ≡ true
    named :
        (name : String)
        → present (counterparty account txn).1 ≡ some name
        → has_recipient (counterparty account txn).0 rs' ≡ true
    every :
        (Q : OfferedRecipient → Type 0)
        → ((r : OfferedRecipient)
            → (counterparty account txn).0 ≡ r.id
            → present (counterparty account txn).1 ≡ some r.name
            → Q r)
        → All Q rs
        → All Q rs'

  add-Added :
      (txn : RecentTransaction) (name : Option String) (rs : List OfferedRecipient)
      → present (counterparty account txn).1 ≡ name
      → Added txn rs
          (add_named shown trimmed_length (counterparty account txn).0 name txn.created_at rs)
  add-Added txn none rs e = record {
    apart = λ a. a;
    kept = λ i h. h;
    named = λ name found. cc;
    every = λ Q f a. a;
  }
  add-Added txn (some name) rs e =
      elim (Bool-cases (has_recipient (counterparty account txn).0 rs)) [
        | inl there ↦ rw there (record {
          apart = λ a. a;
          kept = λ i h. h;
          named = λ name found. there;
          every = λ Q f a. a;
        })
        | inr new ↦
            let r = offered shown trimmed_length (counterparty account txn).0 name txn.created_at in
            rw new (record {
              apart = λ a. AreApart-last rs r new a;
              kept = λ i h. rw (has_recipient-last i rs r, h) refl;
              named =
                  λ other found. rw (has_recipient-last r.id rs r, new) ((eq_iff r.id r.id).1 refl);
              every = λ Q f a. All-append Q rs (r ∷ []) a (f r refl e, tt);
            })
      ]

  -- The same of a list of transactions.
  record AllAdded (txns : List RecentTransaction) (rs rs' : List OfferedRecipient) : Type 1 where
    apart : AreApart rs → AreApart rs'
    kept : (i : String) → has_recipient i rs ≡ true → has_recipient i rs' ≡ true
    named : (i name : String) → IsNamed account txns i name → has_recipient i rs' ≡ true
    every :
        (Q : OfferedRecipient → Type 0)
        → ((r : OfferedRecipient) → IsNamed account txns r.id r.name → Q r)
        → All Q rs
        → All Q rs'

  add_all-AllAdded :
      (txns : List RecentTransaction) (rs : List OfferedRecipient)
      → AllAdded txns rs (add_all shown trimmed_length account txns rs)
  unfolding add_all
  add_all-AllAdded [] rs = record {
    apart = λ a. a;
    kept = λ i h. h;
    named = λ i name n. elim n [ ];
    every = λ Q f a. a;
  }
  add_all-AllAdded (txn ∷ txns) rs =
      let rs' = add_recipient shown trimmed_length account txn rs in
      let one = add-Added txn (present (counterparty account txn).1) rs refl in
      let rest = add_all-AllAdded txns rs' in
      record {
        apart = λ a. rest.apart (one.apart a);
        kept = λ i h. rest.kept i (one.kept i h);
        named = λ i name n. elim n [
          | inl here ↦
              rest.kept i (subst (λ j. has_recipient j rs' ≡ true) here.0 (one.named name here.1))
          | inr later ↦ rest.named i name later
        ];
        every = λ Q f a.
            rest.every Q (λ r n. f r (inr n)) (one.every Q (λ r e e'. f r (inl (e, e'))) a);
      }

  -- What is said of the offered recipients.
  abbrev pub IsRecent : List RecentTransaction → List OfferedRecipient → Type 0
  IsRecent txns rs =
      (length rs ≤ 5)
      × AreApart rs
      × All (λ r. IsNamed account txns r.id r.name) rs
      × ((i name : String)
          → IsNamed account txns i name
          → (has_recipient i rs ≡ true) ⊎ (length rs ≡ 5))

  take-IsRecent :
      (txns : List RecentTransaction)
      → IsRecent txns (take 5 (add_all shown trimmed_length account txns []))
  take-IsRecent txns =
      let all = add_all shown trimmed_length account txns [] in
      let added = add_all-AllAdded txns [] in
      (
        omega (arith, length-take 5 all),
        AreApart-take 5 all (added.apart tt),
        All-take (λ r. IsNamed account txns r.id r.name) 5 all
            (added.every (λ r. IsNamed account txns r.id r.name) (λ r n. n) tt),
        λ i name n. take-has_recipient i 5 all (added.named i name n),
      )

  -- For an account whose id is not empty, the recipients that are offered from the list of recent
  -- transactions are at most five, with different ids; each is the other side of one of the
  -- transactions, under the name that it gives; and every such side is offered, unless five are.
  pub recent_recipients-IsRecent :
      (txns : List RecentTransaction)
      → present (some account) ≡ some account
      → IsRecent txns (recent_recipients shown trimmed_length (some account) txns)
  unfolding recent_recipients
  recent_recipients-IsRecent txns e =
      subst (λ o. IsRecent txns (recent_of shown trimmed_length o txns)) (sym e)
        (take-IsRecent txns)
