-- ===== src/Tests/Books.antt =====
-- Two requests served on the platform of the tests.
use settlr.Prelude.{ℕ, ◌≡◌, refl, [], ◌∷◌, List, String, some}
use settlr.Database.Accounts.{total_balance}
use settlr.Payment.{PaymentParams}
use settlr.Books.{
  Reconciles, IsDistinct, serve_payments, balance_of, sent, received, debited, credited,
}
use settlr.Books.Reconciliation.{serve_payments-Reconciles}
use settlr.Books.Bank.{Trace, answers}
use settlr.Books.Refinement.{bank, serve_payments-Trace}
use settlr.Tests.Payment.{params, tables, unique_ids, distinct_ids}
use settlr.Tests.Initiate.{recorded, world}

abbrev requests : List PaymentParams
requests = params "b" 30 ∷ params "b" 30 ∷ params "b" 9000 ∷ []

abbrev pub opening : String → ℕ
opening i = balance_of i tables

pub opening-Reconciles : Reconciles opening tables
unfolding sent received debited credited
opening-Reconciles = (unique_ids, λ i. refl, λ i. refl)

pub requests-IsDistinct : (amount : ℕ) → IsDistinct recorded (params "b" amount)
requests-IsDistinct amount e = distinct_ids (found e)
  where
    found : {i j : String} → some i ≡ some j → i ≡ j
    found h = cc

serve_payments-Reconciles_example :
    let w = serve_payments recorded requests world in
    Reconciles opening w.tables × (total_balance w.tables.accounts ≡ 600)
serve_payments-Reconciles_example =
    serve_payments-Reconciles recorded opening requests world
      (requests-IsDistinct 30, (requests-IsDistinct 30, (requests-IsDistinct 9000, tt)))
      opening-Reconciles

serve_payments-Trace_example :
    Trace recorded requests
      (answers recorded requests world)
      (bank tables)
      (bank (serve_payments recorded requests world).tables)
serve_payments-Trace_example =
    serve_payments-Trace recorded requests world
      (requests-IsDistinct 30, (requests-IsDistinct 30, (requests-IsDistinct 9000, tt))) unique_ids
