-- ===== src/Books/Transfer.antt =====
-- A transfer keeps the books reconciled.
use settlr.Prelude.{
  ℕ, ◌+◌, ◌≡◌, ◌≢◌, sym, ap, ◌∙◌, inl, inr, some, Option-cases, List, [], ◌∷◌, ◌++◌, String,
  same_text, text-discrete, eq_iff, sum_by-append, if◌then◌else◌, arith,
}
use settlr.Errors.{ok}
use settlr.Database.{
  AccountRow, TransactionStatus, TransactionRow, EntryType, LedgerEntryRow, Tables,
}
use settlr.Database.Accounts.{find_account, HasUniqueIds, total_balance}
use settlr.Payment.{PaymentParams, FraudResult, Platform}
use settlr.Payment.Repository.{read_row, lock_account}
use settlr.Payment.Transfer.{transfer}
use settlr.Payment.Transfer.Posting.{transfer-conserves}
use settlr.Payment.Transfer.Records.{transfer-records}
use settlr.Books.{
  sent, received, debited, credited, sent_amount, received_amount, debit_amount, credit_amount,
  balance_of, Reconciles, IsDistinct,
}

-- One more transaction at the end, completed and between two given accounts.
sums-last :
    (i f g : String) (a : ℕ) (row : TransactionRow) (txs : List TransactionRow)
    → row.status ≡ TransactionStatus.completed
    → row.from_account_id ≡ f
    → row.to_account_id ≡ g
    → row.amount ≡ a
    → (sent i (txs ++ row ∷ []) ≡ sent i txs + (if same_text f i then a else 0))
      × (received i (txs ++ row ∷ []) ≡ received i txs + (if same_text g i then a else 0))
unfolding sent received
sums-last i f g a row txs s from to amount = (
  rw (sum_by-append (sent_amount i) txs (row ∷ []), s, from, amount) (omega arith),
  rw (sum_by-append (received_amount i) txs (row ∷ []), s, to, amount) (omega arith),
)

-- Two more entries at the end, a debit and a credit.
entry_sums-last :
    (i f g : String) (a : ℕ) (d c : LedgerEntryRow) (es : List LedgerEntryRow)
    → (d.entry_type ≡ EntryType.debit) × (d.account_id ≡ f) × (d.amount ≡ a)
    → (c.entry_type ≡ EntryType.credit) × (c.account_id ≡ g) × (c.amount ≡ a)
    → (debited i ((es ++ d ∷ []) ++ c ∷ []) ≡ debited i es + (if same_text f i then a else 0))
      × (credited i ((es ++ d ∷ []) ++ c ∷ []) ≡ credited i es + (if same_text g i then a else 0))
unfolding debited credited
entry_sums-last i f g a d c es (dt, da, dm) (ct, ca, cm) = (
  rw
      (
        sum_by-append (debit_amount i) (es ++ d ∷ []) (c ∷ []),
        sum_by-append (debit_amount i) es (d ∷ []),
        dt,
        da,
        dm,
        ct,
      )
      (omega arith),
  rw
      (
        sum_by-append (credit_amount i) (es ++ d ∷ []) (c ∷ []),
        sum_by-append (credit_amount i) es (d ∷ []),
        dt,
        ct,
        ca,
        cm,
      )
      (omega arith),
)

module _ (p : Platform) (q : PaymentParams) (fraud : FraudResult) (t : Tables) where
  -- The rows that a transfer found when it returned.
  pub record Parties : Type 0 where
    pub f : String
    pub g : String
    pub sender : AccountRow
    pub recipient : AccountRow
    pub reads_f : p.canon q.from_account_id ≡ some f
    pub reads_g : p.canon q.to_account_id ≡ some g
    pub has_sender : find_account f t.accounts ≡ some sender
    pub has_recipient : find_account g t.accounts ≡ some recipient

  pub transfer-parties : (row : TransactionRow) → (transfer p q fraud t).0 ≡ ok row → Parties
  unfolding transfer lock_account read_row
  transfer-parties row h = elim (Option-cases (p.canon q.from_account_id)) [
    | inl e ↦ absurd (ground arith)
    | inr (f, reads_f) ↦ elim (Option-cases (p.canon q.to_account_id)) [
      | inl e ↦ absurd (ground arith)
      | inr (g, reads_g) ↦ elim (Option-cases (find_account f t.accounts)) [
        | inl e ↦ absurd (ground arith)
        | inr (sender, has_sender) ↦ elim (Option-cases (find_account g t.accounts)) [
          | inl e ↦ absurd (ground arith)
          | inr (recipient, has_recipient) ↦ record {
            f = f;
            g = g;
            sender = sender;
            recipient = recipient;
            reads_f = reads_f;
            reads_g = reads_g;
            has_sender = has_sender;
            has_recipient = has_recipient;
          }
        ]
      ]
    ]
  ]

  module _ (row : TransactionRow) (returned : (transfer p q fraud t).0 ≡ ok row) (x : Parties)
      (distinct : x.f ≢ x.g) (unique : HasUniqueIds t.accounts) where
    -- What the transfer adds to an account and takes from it.
    abbrev gain : String → ℕ
    gain i = if same_text x.g i then q.amount else 0

    abbrev loss : String → ℕ
    loss i = if same_text x.f i then q.amount else 0

    balance-moves :
        (i : String) → balance_of i (transfer p q fraud t).1 + loss i ≡ balance_of i t + gain i
    unfolding balance_of
    balance-moves i =
        let c =
          transfer-conserves p q fraud x.f x.g x.reads_f x.reads_g t x.sender x.recipient unique
            x.has_sender x.has_recipient distinct returned in
        elim (text-discrete i x.f) [
          | yes e ↦ ground (arith, c.0, c.1, x.has_sender, e, distinct, eq_iff x.f i, eq_iff x.g i)
          | no d ↦ elim (text-discrete i x.g) [
            | yes e ↦
                ground (arith, c.2, x.has_recipient, e, d, distinct, eq_iff x.f i, eq_iff x.g i)
            | no d' ↦ ground (arith, c.3 i d d', d, d', eq_iff x.f i, eq_iff x.g i)
          ]
        ]

    transactions-move :
        (i : String)
        → (sent i (transfer p q fraud t).1.transactions ≡ sent i t.transactions + loss i)
          × (received i (transfer p q fraud t).1.transactions ≡ received i t.transactions + gain i)
    transactions-move i =
        let (d, c, es, txs, (status, key, from, to, amount), w, w') =
          transfer-records p q fraud x.f x.g x.reads_f x.reads_g t x.sender x.recipient x.has_sender
            x.has_recipient returned in
        rw txs (sums-last i x.f x.g q.amount row t.transactions status from to amount)

    entries-move :
        (i : String)
        → (debited i (transfer p q fraud t).1.ledger_entries ≡ debited i t.ledger_entries + loss i)
          × (credited i (transfer p q fraud t).1.ledger_entries
              ≡ credited i t.ledger_entries + gain i)
    entries-move i =
        let (d, c, es, txs, w, (dt, da, did, dm, db, db'), (ct, ca, cid, cm, cb, cb')) =
          transfer-records p q fraud x.f x.g x.reads_f x.reads_g t x.sender x.recipient x.has_sender
            x.has_recipient returned in
        rw es (entry_sums-last i x.f x.g q.amount d c t.ledger_entries (dt, da, dm) (ct, ca, cm))

  -- A transfer between different accounts that returns keeps the books reconciled and the sum of the
  -- balances.
  pub transfer-Reconciles :
      (opening : String → ℕ) (row : TransactionRow)
      → IsDistinct p q
      → (transfer p q fraud t).0 ≡ ok row
      → Reconciles opening t
      → Reconciles opening (transfer p q fraud t).1
        × (total_balance (transfer p q fraud t).1.accounts ≡ total_balance t.accounts)
  transfer-Reconciles opening row distinct returned h =
      let x = transfer-parties row returned in
      let apart : x.f ≢ x.g = λ e. distinct (x.reads_f ∙ ap some e ∙ sym x.reads_g) in
      let c =
        transfer-conserves p q fraud x.f x.g x.reads_f x.reads_g t x.sender x.recipient h.0
          x.has_sender x.has_recipient apart returned in
      (
        (
          c.5,
          λ i. omega (
            arith,
            h.1 i,
            balance-moves row returned x apart h.0 i,
            transactions-move row returned x apart h.0 i,
          ),
          λ i. omega (
            arith,
            h.2 i,
            balance-moves row returned x apart h.0 i,
            entries-move row returned x apart h.0 i,
          ),
        ),
        c.4,
      )
