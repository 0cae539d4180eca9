-- ===== src/Account/Freshness.antt =====
-- What account-service answers after a payment: its read caches, which payment-service deletes.
use settlr.Prelude.{
  ◌≡◌, ◌⊎◌, inl, inr, refl, sym, ◌∙◌, ap, subst, false, List, [], ◌∷◌, ◌++◌, Option, none, some,
  String, All, if◌then◌else◌, arith,
}
use settlr.Errors.{ok}
use settlr.Redis.{Key}
use settlr.Database.{TransactionRow, Tables, parse_bigint}
use settlr.Payment.{PaymentParams, PaymentResult, Platform}
use settlr.Payment.Repository.{read_row}
use settlr.Payment.Transfer.Records.{transfer-records}
use settlr.Payment.Initiate.{State, stale_keys, initiate_payment}
use settlr.Payment.Initiate.Atomic.{Posts, Ends}
use settlr.Payment.Initiate.Outcome.{initiate_payment-Ends}
use settlr.Payment.Initiate.Invalidation.{IsAbsent, initiate_payment-AllAbsent, get-absent}
use settlr.Books.Transfer.{transfer-parties}
use settlr.Account.{
  safe_limit, Page, Pages, AccountState, page_of, account_transactions, query_page,
  find_by_id_and_user_id, read_page, get_history, get_transactions,
}
use settlr.Account.Chart.{ChartDay, Calendar, chart_data, safe_days, get_account_chart}
use settlr.Account.Chart.Days.{by_day, chart_data-by_day}

-- A first page that is not cached is read from the tables.
get_transactions-uncached :
    (ps : Pages TransactionRow) (i user_id u : String) (w : AccountState ps)
    (answer : Page TransactionRow)
    → ps.redis.value (Key.cache_txns i 1 20) w.store ≡ none
    → ps.canon i ≡ some u
    → (get_transactions ps i user_id 1 20 w).0 ≡ ok answer
    → answer.items ≡ page_of 1 20 (account_transactions u w.tables)
unfolding get_transactions get_history read_page query_page find_by_id_and_user_id read_row
    parse_bigint
get_transactions-uncached ps i user_id u w answer none_cached reads h =
    read (get-absent ps.redis (Key.cache_txns i 1 20) w.store none_cached)
  where
    read :
        ((ps.redis.get (Key.cache_txns i 1 (safe_limit 20)) w.store).0 ≡ none)
          ⊎ ((ps.redis.get (Key.cache_txns i 1 (safe_limit 20)) w.store).0 ≡ some none)
        → answer.items ≡ page_of 1 20 (account_transactions u w.tables)
    read a = ground arith

-- A chart that is not cached is read from the tables.
get_account_chart-uncached :
    {A : Type 0} (ps : Pages A) (stringify : List ChartDay → String)
    (parse : String → Option (List ChartDay)) (c : Calendar) (i user_id u : String)
    (w : AccountState ps) (chart : List ChartDay)
    → ps.redis.value (Key.cache_chart i 7) w.store ≡ none
    → ps.canon i ≡ some u
    → (get_account_chart ps stringify parse c i user_id 7 w).0 ≡ ok chart
    → chart ≡ chart_data c u 7 w.tables.transactions
unfolding get_account_chart find_by_id_and_user_id read_row parse_bigint
get_account_chart-uncached ps stringify parse c i user_id u w chart none_cached reads h =
    read (get-absent ps.redis (Key.cache_chart i 7) w.store none_cached)
  where
    read :
        ((ps.redis.get (Key.cache_chart i (safe_days 7)) w.store).0 ≡ none)
          ⊎ ((ps.redis.get (Key.cache_chart i (safe_days 7)) w.store).0 ≡ some none)
        → chart ≡ chart_data c u 7 w.tables.transactions
    read a = ground arith

-- The rows of a history come from the transactions alone.
account_transactions-same :
    (u : String) (t t' : Tables)
    → t.transactions ≡ t'.transactions
    → account_transactions u t ≡ account_transactions u t'
unfolding account_transactions
account_transactions-same u t t' e = rw e refl

-- account-service on the Redis and the database of payment-service.
abbrev pub pages :
    (p : Platform)
    → (Page TransactionRow → String)
    → (String → Option (Page TransactionRow))
    → Pages TransactionRow
pages p stringify parse = record {
  redis = p.redis;
  canon = p.canon;
  stringify = stringify;
  parse = parse;
}

module _ (p : Platform) (q : PaymentParams) where
  -- The transactions after a committed transfer.
  posted-transactions :
      (t t' : Tables) (row : TransactionRow)
      → Posts p q t row t'
      → t'.transactions ≡ t.transactions ++ row ∷ []
  posted-transactions t t' row (fraud, free, returned, e) =
      let x = transfer-parties p q fraud t row returned in
      let (d, c, es, txs, w, db, cr) =
        transfer-records p q fraud x.f x.g x.reads_f x.reads_g t x.sender x.recipient x.has_sender
          x.has_recipient returned in
      ap (λ (u : Tables). u.transactions) e ∙ txs

  fresh-transactions :
      (w : State p) (r : PaymentResult)
      → (initiate_payment p q w).0 ≡ ok r
      → r.from_cache ≡ false
      → (initiate_payment p q w).1.tables.transactions ≡ w.tables.transactions ++ r.transaction ∷ []
  fresh-transactions w r h fresh =
      let t' = (initiate_payment p q w).1.tables in
      let ends = subst (λ y. Ends p q w.tables y t') h (initiate_payment-Ends p q w) in
      posted-transactions w.tables t' r.transaction
        (subst (λ b. if b then t' ≡ w.tables else Posts p q w.tables r.transaction t') fresh ends)

  stale_pages :
      (i : String) (s : p.redis.Store)
      → (i ≡ q.from_account_id) ⊎ (i ≡ q.to_account_id)
      → All (IsAbsent p q s) (stale_keys p q)
      → (p.redis.value (Key.cache_txns i 1 20) s ≡ none)
        × (p.redis.value (Key.cache_chart i 7) s ≡ none)
  stale_pages i s (inl e) (h0, (h1, (h2, (h3, (h4, (h5, _)))))) = (
    subst (λ j. p.redis.value (Key.cache_txns j 1 20) s ≡ none) (sym e) h4,
    subst (λ j. p.redis.value (Key.cache_chart j 7) s ≡ none) (sym e) h2,
  )
  stale_pages i s (inr e) (h0, (h1, (h2, (h3, (h4, (h5, _)))))) = (
    subst (λ j. p.redis.value (Key.cache_txns j 1 20) s ≡ none) (sym e) h5,
    subst (λ j. p.redis.value (Key.cache_chart j 7) s ≡ none) (sym e) h3,
  )

  -- After a payment that returned a fresh result, the first page of 20 transactions and the chart of
  -- 7 days, of the account under either id of the request, are read from the tables and not from a
  -- cache of before: if account-service answers, then its page is the page of the rows of before
  -- with the transaction of the result added, and its chart has the daily sums of those rows.
  pub initiate_payment-shows :
      (w : State p) (r : PaymentResult)
      → (initiate_payment p q w).0 ≡ ok r
      → r.from_cache ≡ false
      → (stringify_page : Page TransactionRow → String)
      → (parse_page : String → Option (Page TransactionRow)) → (stringify : List ChartDay → String)
      → (parse : String → Option (List ChartDay)) → (c : Calendar) (i user_id u : String)
      → (i ≡ q.from_account_id) ⊎ (i ≡ q.to_account_id)
      → p.canon i ≡ some u
      → (answer : Page TransactionRow)
      → (get_transactions
          (pages p stringify_page parse_page)
          i
          user_id
          1
          20
          (initiate_payment p q w).1).0
        ≡ ok answer
      → (chart : List ChartDay)
      → (get_account_chart
          (pages p stringify_page parse_page)
          stringify
          parse
          c
          i
          user_id
          7
          (initiate_payment p q w).1).0
        ≡ ok chart
      → let rows = w.tables.transactions ++ r.transaction ∷ [] in
        (answer.items
          ≡ page_of 1 20 (account_transactions u (record w.tables { transactions = rows })))
        × (chart ≡ by_day c u rows 7)
  initiate_payment-shows w r h fresh stringify_page parse_page stringify parse c i user_id u either
        reads answer listed chart charted =
      let ps = pages p stringify_page parse_page in
      let after = (initiate_payment p q w).1 in
      let rows = w.tables.transactions ++ r.transaction ∷ [] in
      let written = fresh-transactions w r h fresh in
      let stale = stale_pages i after.store either (initiate_payment-AllAbsent p q w r h fresh) in
      (
        get_transactions-uncached ps i user_id u after answer stale.0 reads listed
            ∙ ap (page_of 1 20) (
                account_transactions-same u after.tables (record w.tables { transactions = rows })
                  written),
        get_account_chart-uncached ps stringify parse c i user_id u after chart stale.1 reads
              charted
            ∙ chart_data-by_day c u 7 after.tables.transactions
            ∙ ap (λ xs. by_day c u xs 7) written,
      )
