-- ===== src/Fraud/Review.antt =====
-- services/fraud-service/src/routes/fraud.routes.ts: the decisions of an administrator on a flagged
-- transaction. A failure of the database is not modelled, but for an id that is no uuid.
pub mod Ledger
use settlr.Prelude.{
  ℕ, ◌<◌, Bool, true, false, ◌||◌, Option, none, some, List, [], ◌∷◌, String, same_text, ltb,
  if◌then◌else◌, keep, take, sort_by, update_where, map,
}
use settlr.Database.{TransactionStatus, TransactionRow, FraudAction, FraudSignalRow, Tables}
use settlr.Auth.{UserRow}
use settlr.Account.{newest_transaction}
use settlr.Payment.Listing.{owner}

-- The status and `success` of a reply.
pub record ReviewReply : Type 0 where
  pub status : ℕ
  pub success : Bool

-- PostgreSQL's reading of a uuid, and its clock.
pub record Reviewer : Type 0 where
  pub canon : String → Option String
  pub now : ℕ

abbrev pub has_id : String → TransactionRow → Bool
has_id u row = same_text row.id u

abbrev pub is_scored : Option ℕ → Bool
is_scored none = false
is_scored (some score) = ltb 0 score

abbrev pub is_held : Option FraudAction → Bool
is_held none = false
is_held (some FraudAction.approve) = false
is_held (some _) = true

-- A flagged transaction with the emails of its users and its signals.
pub record Flagged : Type 0 where
  pub row : TransactionRow
  pub from_user_name : Option String
  pub to_user_name : Option String
  pub signals : List FraudSignalRow

abbrev pub email_of : Option UserRow → Option String
email_of none = none
email_of (some u) = some u.email

abbrev pub flagged_entry : Tables → List UserRow → TransactionRow → Flagged
flagged_entry t users row = record {
  row = row;
  from_user_name = email_of (owner t users row.from_account_id);
  to_user_name = email_of (owner t users row.to_account_id);
  signals = keep (λ s. same_text s.transaction_id row.id) t.fraud_signals;
}

-- GET /fraud/flagged: the newest 50.
unfoldable pub flagged : Tables → List UserRow → List Flagged
flagged t users = map (flagged_entry t users) (
    take 50 (
      sort_by newest_transaction
        (keep (λ row. is_scored row.fraud_score || is_held row.fraud_action) t.transactions)))

abbrev pub approved_row : Reviewer → TransactionRow → TransactionRow
approved_row r row = record row {
  fraud_action = some FraudAction.approve;
  status = TransactionStatus.completed;
  updated_at = r.now;
}

abbrev pub blocked_row : Reviewer → TransactionRow → TransactionRow
blocked_row r row = record row {
  fraud_action = some FraudAction.decline;
  status = TransactionStatus.failed;
  failure_reason = some "Blocked by admin — fraud review";
  updated_at = r.now;
}

abbrev pub review :
    (TransactionRow → TransactionRow) → Option String → Tables → ReviewReply × Tables
review f none t = (record { status = 500; success = false }, t)
review f (some u) t = (
  record { status = 200; success = true },
  record t { transactions = update_where (has_id u) f t.transactions },
)

-- POST /fraud/flagged/:id/approve
unfoldable pub approve_flagged : Reviewer → String → Tables → ReviewReply × Tables
approve_flagged r i t = review (approved_row r) (r.canon i) t

-- POST /fraud/flagged/:id/block
unfoldable pub block_flagged : Reviewer → String → Tables → ReviewReply × Tables
block_flagged r i t = review (blocked_row r) (r.canon i) t
