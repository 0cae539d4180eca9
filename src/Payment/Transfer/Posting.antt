-- ===== src/Payment/Transfer/Posting.antt =====
-- What a transfer does to the tables: it is refused and changes nothing, or it posts the amount.
use settlr.Prelude.{
  ◌+◌, ◌-◌, ◌≤◌, ◌≡◌, ◌≢◌, refl, sym, ap, ◌∙◌, true, List, some, String, arith, update_where,
}
use settlr.Errors.{ok, err}
use settlr.Database.{AccountRow, TransactionRow, Tables, parse_bigint}
use settlr.Database.Accounts.{
  has_id, at_version, find_account, HasUniqueIds, total_balance, find-update_self,
  find-update_others, update-HasUniqueIds, total_balance-update, update-at_version,
}
use settlr.Payment.{PaymentParams, FraudResult, Platform}
use settlr.Payment.Repository.{
  read_row, set_balance, lock_account, update_balance, credit_account, create, create_entries,
  create_pair, insert_fraud_signals,
}
use settlr.Payment.Transfer.{transfer, is_active, conflict}

module _ (p : Platform) (q : PaymentParams) (fraud : FraudResult) where
  open p use {canon}

  -- The accounts after a debit of the sender and a credit of the recipient.
  abbrev posted_accounts : String → String → AccountRow → AccountRow → Tables → List AccountRow
  posted_accounts f g sender recipient t =
      update_where (has_id g) (set_balance p (recipient.balance + q.amount) recipient.version) (
        update_where (at_version f sender.version)
          (set_balance p (sender.balance - q.amount) sender.version) t.accounts)

  module _ (f g : String) (reads_f : canon q.from_account_id ≡ some f)
      (reads_g : canon q.to_account_id ≡ some g) where
    -- A transfer that returns was between two active accounts, the sender had the amount, and the
    -- accounts are the posted ones.
    pub transfer-inversion :
        (t : Tables) (sender recipient : AccountRow)
        → find_account f t.accounts ≡ some sender
        → find_account g t.accounts ≡ some recipient
        → {row : TransactionRow} → (transfer p q fraud t).0 ≡ ok row
        → (is_active sender.status ≡ true)
          × (is_active recipient.status ≡ true)
          × (q.amount ≤ sender.balance)
          × ((transfer p q fraud t).1.accounts ≡ posted_accounts f g sender recipient t)
    unfolding transfer lock_account read_row parse_bigint update_balance credit_account create
        create_entries create_pair insert_fraud_signals
    transfer-inversion t sender recipient hs hr h = ground arith

    module _ (t : Tables) (sender recipient : AccountRow) (unique : HasUniqueIds t.accounts)
        (has_sender : find_account f t.accounts ≡ some sender)
        (has_recipient : find_account g t.accounts ≡ some recipient) where
      abbrev debited : AccountRow
      debited = set_balance p (sender.balance - q.amount) sender.version sender

      abbrev credited : AccountRow
      credited = set_balance p (recipient.balance + q.amount) recipient.version recipient

      abbrev after_debit : List AccountRow
      after_debit =
          update_where (has_id f) (set_balance p (sender.balance - q.amount) sender.version)
            t.accounts

      posted_accounts_by_id :
          posted_accounts f g sender recipient t
          ≡ update_where
              (has_id g)
              (set_balance p (recipient.balance + q.amount) recipient.version)
              after_debit
      posted_accounts_by_id =
          rw
            (update-at_version f (set_balance p (sender.balance - q.amount) sender.version)
              (λ row. refl) t.accounts sender sender.version unique has_sender refl).0

      -- Between two different rows: each of the two has its new balance and version, no other row
      -- changes, and the total stays.
      posting_balances :
          f ≢ g
          → let rows = posted_accounts f g sender recipient t in
            (find_account f rows ≡ some debited)
            × (find_account g rows ≡ some credited)
            × ((j : String) → j ≢ f → j ≢ g → find_account j rows ≡ find_account j t.accounts)
            × (q.amount ≤ sender.balance → total_balance rows ≡ total_balance t.accounts)
            × HasUniqueIds rows
      posting_balances d = rw posted_accounts_by_id (
          let debit = set_balance p (sender.balance - q.amount) sender.version in
          let credit = set_balance p (recipient.balance + q.amount) recipient.version in
          let still =
            find-update_others f debit (λ row. refl) g t.accounts (λ e. d (sym e))
            ∙ has_recipient in
          (
            find-update_others g credit (λ row. refl) f after_debit d
                ∙ find-update_self f debit (λ row. refl) t.accounts sender has_sender,
            find-update_self g credit (λ row. refl) after_debit recipient still,
            λ j df dg.
                find-update_others g credit (λ row. refl) j after_debit dg
                ∙ find-update_others f debit (λ row. refl) j t.accounts df,
            λ enough. omega (
              arith,
              total_balance-update f debit (λ row. refl) t.accounts sender unique has_sender,
              total_balance-update g credit (λ row. refl) after_debit recipient
                  (update-HasUniqueIds f debit (λ row. refl) t.accounts unique) still,
            ),
            update-HasUniqueIds g credit (λ row. refl) after_debit
                (update-HasUniqueIds f debit (λ row. refl) t.accounts unique),
          ))

      -- A transfer that returns, between two different rows of the table, found the sender with
      -- enough; afterwards the sender has the amount less and the recipient the amount more, both
      -- with the next version, every other account is as it was, the sum of all balances is the
      -- same, and no id occurs twice.
      pub transfer-conserves :
          {row : TransactionRow}
          → f ≢ g
          → (transfer p q fraud t).0 ≡ ok row
          → let rows = (transfer p q fraud t).1.accounts in
            (q.amount ≤ sender.balance)
            × (find_account f rows ≡ some debited)
            × (find_account g rows ≡ some credited)
            × ((j : String) → j ≢ f → j ≢ g → find_account j rows ≡ find_account j t.accounts)
            × (total_balance rows ≡ total_balance t.accounts)
            × HasUniqueIds rows
      transfer-conserves d h =
          let done = transfer-inversion t sender recipient has_sender has_recipient h in
          let posted = posting_balances d in
          rw done.3 (done.2, posted.0, posted.1, posted.2, posted.3 done.2, posted.4)

      -- Where the two ids of a request denote one row, the debit is overwritten by the credit: a
      -- transfer that returns adds its amount to the account and to the sum of all balances.
      pub transfer-mints :
          {row : TransactionRow}
          → f ≡ g
          → (transfer p q fraud t).0 ≡ ok row
          → let rows = (transfer p q fraud t).1.accounts in
            (total_balance rows ≡ total_balance t.accounts + q.amount)
            × (find_account f rows
                ≡ some (set_balance p (sender.balance + q.amount) sender.version debited))
      transfer-mints e h =
          let done = transfer-inversion t sender recipient has_sender has_recipient h in
          let debit = set_balance p (sender.balance - q.amount) sender.version in
          let credit = set_balance p (recipient.balance + q.amount) recipient.version in
          let one : recipient ≡ sender = cc in
          let still : find_account g after_debit ≡ some debited =
            rw (← e) (find-update_self f debit (λ row. refl) t.accounts sender has_sender) in
          rw (done.3, posted_accounts_by_id)
            (
              omega (
                arith,
                ap (λ (r : AccountRow). r.balance) one,
                total_balance-update f debit (λ row. refl) t.accounts sender unique has_sender,
                total_balance-update g credit (λ row. refl) after_debit debited
                    (update-HasUniqueIds f debit (λ row. refl) t.accounts unique) still,
              ),
              cc (
                find-update_self g credit (λ row. refl) after_debit debited still,
                e,
                ap
                    (λ (r : AccountRow).
                      some (set_balance p (r.balance + q.amount) r.version debited))
                    one,
              ),
            )

      -- The version test never fails: the row is locked and its id is unique, so the update finds it.
      pub transfer-no_conflict : (transfer p q fraud t).0 ≢ err conflict
      unfolding transfer lock_account read_row parse_bigint update_balance credit_account create
          create_entries create_pair insert_fraud_signals
      transfer-no_conflict =
          let one =
            (update-at_version f (set_balance p (sender.balance - q.amount) sender.version)
              (λ row. refl) t.accounts sender sender.version unique has_sender refl).1 in
          ground arith
