-- ===== src/Fraud/Review/Ledger.antt =====
-- What the decisions of an administrator do to the books.
use settlr.Prelude.{◌<◌, ◌≡◌, ◌≢◌, [], ◌∷◌, String, keep}
use settlr.Database.{TransactionStatus, TransactionRow, Tables}
use settlr.Fraud.Review.{has_id}

-- Exactly one transaction has the id, and it is this one, completed and of a positive amount between
-- different accounts.
abbrev pub IsSettled : String → TransactionRow → Tables → Type 0
IsSettled u row t =
    (keep (has_id u) t.transactions ≡ row ∷ [])
    × (row.status ≡ TransactionStatus.completed)
    × (row.from_account_id ≢ row.to_account_id)
    × (0 < row.amount)
