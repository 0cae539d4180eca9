-- ===== src/Books/Reconciliation.antt =====
-- A run of payment requests keeps the books reconciled.
use settlr.Prelude.{
  ◌≡◌, inl, inr, refl, sym, ◌∙◌, subst, Bool, true, false, List, [], ◌∷◌, String, ℕ, All,
  if◌then◌else◌,
}
use settlr.Errors.{app, fault, Result, ok, err}
use settlr.Database.{TransactionRow, Tables}
use settlr.Database.Accounts.{total_balance}
use settlr.Payment.{PaymentParams, PaymentResult, Platform}
use settlr.Payment.Initiate.{State, initiate_payment}
use settlr.Payment.Initiate.Atomic.{Posts, Ends}
use settlr.Payment.Initiate.Outcome.{initiate_payment-Ends}
use settlr.Books.{Reconciles, IsDistinct, serve_payments}
use settlr.Books.Transfer.{transfer-Reconciles}

module _ (p : Platform) (opening : String → ℕ) where
  -- The books after, with the same money as before.
  abbrev Keeps : Tables → Tables → Type 0
  Keeps t t' = Reconciles opening t' × (total_balance t'.accounts ≡ total_balance t.accounts)

  module _ (q : PaymentParams) (distinct : IsDistinct p q) (t : Tables)
      (books : Reconciles opening t) where
    Posts-Keeps : (row : TransactionRow) (t' : Tables) → Posts p q t row t' → Keeps t t'
    Posts-Keeps row t' (fraud, free, returned, e) =
        subst (λ u. Keeps t u) (sym e)
          (transfer-Reconciles p q fraud t opening row distinct returned books)

    kept-Keeps : (t' : Tables) → t' ≡ t → Keeps t t'
    kept-Keeps t' e = subst (λ u. Keeps t u) (sym e) (books, refl)

    Ends-Keeps : (r : Result PaymentResult) (t' : Tables) → Ends p q t r t' → Keeps t t'
    Ends-Keeps (ok r) t' h = answered r.from_cache h
      where
        answered : (b : Bool) → (if b then t' ≡ t else Posts p q t r.transaction t') → Keeps t t'
        answered true e = kept-Keeps t' e
        answered false h = Posts-Keeps r.transaction t' h
    Ends-Keeps (err (app e)) t' h = kept-Keeps t' h
    Ends-Keeps (err (fault e)) t' (inl h) = kept-Keeps t' h
    Ends-Keeps (err (fault e)) t' (inr (_, row, h)) = Posts-Keeps row t' h

  -- If the books reconcile, then they reconcile after any list of payment requests that name two
  -- different accounts each, served one after the other, whatever each answered: every balance is
  -- the opening balance with the completed transactions to the account and without those from it,
  -- and likewise by the ledger entries; and the sum of all balances is as before.
  pub serve_payments-Reconciles :
      (qs : List PaymentParams) (w : State p)
      → All (IsDistinct p) qs
      → Reconciles opening w.tables
      → Reconciles opening (serve_payments p qs w).tables
        × (total_balance (serve_payments p qs w).tables.accounts ≡ total_balance w.tables.accounts)
  unfolding serve_payments
  serve_payments-Reconciles [] w h books = (books, refl)
  serve_payments-Reconciles (q ∷ qs) w (d, h) books =
      let s = (initiate_payment p q w).1 in
      let step =
        Ends-Keeps q d w.tables books (initiate_payment p q w).0 s.tables
          (initiate_payment-Ends p q w) in
      let rest = serve_payments-Reconciles qs s h step.0 in (rest.0, rest.1 ∙ step.1)
