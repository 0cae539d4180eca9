-- ===== src/Ui/History.antt =====
-- settlr-ui/src/api/payment.api.ts: getTransactions with normalizeListResponse, and the state of
-- settlr-ui/src/pages/TransactionsPage.tsx. An amount of the reply is a number or a text; `to_number`
-- is Number of a text, `none` for NaN. `shown` writes a number into the query string.
pub mod Walk
use settlr.Prelude.{
  ℕ, zero, suc, ◌+◌, ℤ, Bool, true, false, Option, none, some, List, [], ◌++◌, map, String, ltb,
  length, if◌then◌else◌,
}
use settlr.Errors.{Result, ok, err}
use settlr.Database.{Tables}
use settlr.Auth.{UserRow}
use settlr.Account.{page_count}
use settlr.Payment.Listing.{ListQuery, Finder, ListedTransaction, Listing, list_transactions}

pub data Numeric : Type 0 where
  number : ℕ → Numeric
  text : String → Numeric

-- Transaction of the reply, and of the screens: the other fields are those of the listing.
pub record RawTransaction : Type 0 where
  pub fields : ListedTransaction
  pub raw_amount : Numeric
  pub raw_score : Option Numeric

pub record ShownTransaction : Type 0 where
  pub fields : ListedTransaction
  pub amount : ℕ
  pub fraud_score : Option (Option ℕ)

pub record RawListing : Type 0 where
  pub transactions : List RawTransaction
  pub total : Option ℕ
  pub page : Option ℕ
  pub limit : Option ℕ
  pub total_pages : Option ℕ

pub data RawPayload : Type 0 where
  plain : List RawTransaction → RawPayload
  listing : RawListing → RawPayload
  missing : RawPayload

pub record RawPaymentResponse : Type 0 where
  pub success : Option Bool
  pub data_of : RawPayload
  pub trace_id : Option String

pub record Pagination : Type 0 where
  pub total : ℕ
  pub page : ℕ
  pub limit : ℕ
  pub total_pages : ℕ

-- A plain list keeps the other fields of the reply, which has no pagination.
pub record TransactionListResponse : Type 0 where
  pub success : Option Bool
  pub items : List ShownTransaction
  pub pagination : Option Pagination
  pub trace_id : Option String

-- The fallback of an absent value.
abbrev pub nullish : {A : Type 0} → Option A → A → A
nullish none d = d
nullish (some x) d = x

module _ (to_number : String → Option ℕ) where
  abbrev pub numeric : Numeric → Option ℕ
  numeric (Numeric.number n) = some n
  numeric (Numeric.text s) = to_number s

  abbrev pub score_of : Option Numeric → Option (Option ℕ)
  score_of none = none
  score_of (some n) = some (numeric n)

  abbrev pub coerce_transaction : RawTransaction → ShownTransaction
  coerce_transaction txn = record {
    fields = txn.fields;
    amount = nullish (numeric txn.raw_amount) 0;
    fraud_score = score_of txn.raw_score;
  }

  abbrev pub pagination_of : RawListing → Pagination
  pagination_of payload =
      let total = nullish payload.total (length payload.transactions) in
      let limit = nullish payload.limit 20 in
      record {
        total = total;
        page = nullish payload.page 1;
        limit = limit;
        total_pages = nullish payload.total_pages (page_count total limit);
      }

  abbrev pub normalized : Option Bool → Option String → RawPayload → TransactionListResponse
  normalized success trace_id (RawPayload.plain txns) = record {
    success = success;
    items = map coerce_transaction txns;
    pagination = none;
    trace_id = trace_id;
  }
  normalized success trace_id (RawPayload.listing payload) = record {
    success = some (nullish success true);
    items = map coerce_transaction payload.transactions;
    pagination = some (pagination_of payload);
    trace_id = some (nullish trace_id "");
  }
  normalized success trace_id RawPayload.missing = record {
    success = some (nullish success false);
    items = [];
    pagination = some (record { total = 0; page = 1; limit = 20; total_pages = 0 });
    trace_id = some (nullish trace_id "");
  }

  unfoldable pub normalize_list_response : RawPaymentResponse → TransactionListResponse
  normalize_list_response raw = normalized raw.success raw.trace_id raw.data_of

-- The reply of GET /payments as JSON: its amounts are numbers.
abbrev pub score_json : Option ℕ → Option Numeric
score_json none = none
score_json (some n) = some (Numeric.number n)

abbrev pub transaction_json : ListedTransaction → RawTransaction
transaction_json x = record {
  fields = x;
  raw_amount = Numeric.number x.row.amount;
  raw_score = score_json x.row.fraud_score;
}

abbrev pub natural : ℤ → Option ℕ
natural (ℤ.pos n) = some n
natural (ℤ.negsuc n) = none

abbrev pub response_json : String → Listing → RawPaymentResponse
response_json trace_id answer = record {
  success = some true;
  data_of = RawPayload.listing (record {
    transactions = map transaction_json answer.transactions;
    total = some answer.total;
    page = some answer.page;
    limit = natural answer.limit;
    total_pages = some answer.total_pages;
  });
  trace_id = some trace_id;
}

-- TransactionFilters
pub record Filters : Type 0 where
  pub type_of : Option String
  pub period : Option String
  pub status : Option String
  pub search : Option String

-- LIMIT
abbrev pub page_limit : ℕ
page_limit = 20

-- `{ ...filters, page, limit: LIMIT }`
abbrev pub query_of : (ℕ → String) → Filters → ℕ → ListQuery
query_of shown filters page = record {
  limit = some (shown page_limit);
  page = some (shown page);
  status = filters.status;
  type_of = filters.type_of;
  search = filters.search;
  period = filters.period;
}

-- What the page reads of its query: a failed request has no data.
abbrev pub items_of : Option TransactionListResponse → List ShownTransaction
items_of none = []
items_of (some r) = r.items

abbrev pub is_before_last : ℕ → Option Pagination → Bool
is_before_last page none = false
is_before_last page (some p) = ltb page p.total_pages

-- hasMore
abbrev pub more_pages : ℕ → Option TransactionListResponse → Bool
more_pages page none = false
more_pages page (some r) = is_before_last page r.pagination

-- The state: the filters and the number of the page.
pub record TransactionsPage : Type 0 where
  pub filters : Filters
  pub page : ℕ

-- handleFilterChange
abbrev pub handle_filter_change : Filters → TransactionsPage → TransactionsPage
handle_filter_change new_filters s = record { filters = new_filters; page = 1 }

-- setPage of Load more
abbrev pub load_more : TransactionsPage → TransactionsPage
load_more s = record { filters = s.filters; page = suc s.page }

module _ (to_number : String → Option ℕ) (shown : ℕ → String) (d : Finder) (trace_id : String)
    (user_id : String) (t : Tables) (users : List UserRow) where
  abbrev pub page_reply : Result Listing → Option TransactionListResponse
  page_reply (ok answer) = some (normalize_list_response to_number (response_json trace_id answer))
  page_reply (err e) = none

  -- The query of the page: getTransactions, answered by listTransactionsHandler.
  unfoldable pub fetch_page : TransactionsPage → Option TransactionListResponse
  unfolding normalize_list_response
  fetch_page s = page_reply (list_transactions d user_id (query_of shown s.filters s.page) t users)

  -- What is shown on the way, when Load more is pressed while it is there, up to `fuel` pages.
  unfoldable pub shown_until_end : ℕ → TransactionsPage → List ShownTransaction
  unfolding fetch_page
  shown_until_end zero s = []
  shown_until_end (suc fuel) s =
      let rest = shown_until_end fuel (load_more s) in
      let response = fetch_page s in
      items_of response ++ (if more_pages s.page response then rest else [])
