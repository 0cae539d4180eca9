-- ===== src/Ui/Recipients.antt =====
-- settlr-ui/src/components/sendmoney/RecipientSearch.tsx: the recipients that it offers. A Map is the
-- list of its values in the order in which their keys were added.
pub mod Recent
use settlr.Prelude.{
  ℕ, Bool, true, false, Option, none, some, List, [], ◌∷◌, ◌++◌, String, same_text, take, map, leb,
  if◌then◌else◌,
}
use settlr.Payment.Handler.{present}
use settlr.Account.Directory.{Recipient}

-- A transaction of the list, as far as it is read.
pub record RecentTransaction : Type 0 where
  pub from_account_id : String
  pub to_account_id : String
  pub from_user_name : Option String
  pub to_user_name : Option String
  pub created_at : String

pub record OfferedRecipient : Type 0 where
  pub id : String
  pub name : String
  pub account_number : String
  pub last_transacted : Option String

-- recipientId and recipientName
abbrev pub counterparty : String → RecentTransaction → String × Option String
counterparty primary txn =
    if same_text txn.from_account_id primary
    then (txn.to_account_id, txn.to_user_name)
    else (txn.from_account_id, txn.from_user_name)

-- uniqueRecipients.has
abbrev pub has_recipient : String → List OfferedRecipient → Bool
has_recipient i [] = false
has_recipient i (r ∷ rs) = if same_text r.id i then true else has_recipient i rs

-- `shown` prints a date; `trimmed_length` is that of a trimmed text.
module _ (shown : String → String) (trimmed_length : String → ℕ) where
  abbrev pub offered : String → String → String → OfferedRecipient
  offered i name created_at = record {
    id = i;
    name = name;
    account_number = i;
    last_transacted = some (shown created_at);
  }

  abbrev pub add_named :
      String → Option String → String → List OfferedRecipient → List OfferedRecipient
  add_named i none created_at rs = rs
  add_named i (some name) created_at rs =
      if has_recipient i rs then rs else rs ++ offered i name created_at ∷ []

  -- The body of forEach
  abbrev pub add_recipient :
      String → RecentTransaction → List OfferedRecipient → List OfferedRecipient
  add_recipient primary txn rs =
      let (i, name) = counterparty primary txn in add_named i (present name) txn.created_at rs

  unfoldable pub add_all :
      String → List RecentTransaction → List OfferedRecipient → List OfferedRecipient
  add_all primary [] rs = rs
  add_all primary (txn ∷ txns) rs = add_all primary txns (add_recipient primary txn rs)

  -- The first five of the Map; there is no primary account before the accounts are fetched.
  abbrev pub recent_of : Option String → List RecentTransaction → List OfferedRecipient
  recent_of none txns = []
  recent_of (some account) txns = take 5 (add_all account txns [])

  -- recentRecipients
  unfoldable pub recent_recipients : Option String → List RecentTransaction → List OfferedRecipient
  recent_recipients primary txns = recent_of (present primary) txns

  -- `item.name || item.email`
  abbrev pub shown_name : Option String → String → String
  shown_name none email = email
  shown_name (some name) email = name

  abbrev pub found_recipient : Recipient → OfferedRecipient
  found_recipient item = record {
    id = item.account_id;
    name = shown_name (present item.name) item.email;
    account_number = item.account_id;
    last_transacted = none;
  }

  -- recipientsToShow
  unfoldable pub recipients_to_show :
      String → Option String → List RecentTransaction → List Recipient → List OfferedRecipient
  unfolding recent_recipients
  recipients_to_show query primary txns found =
      if leb 2 (trimmed_length query)
      then map found_recipient found
      else recent_recipients primary txns
