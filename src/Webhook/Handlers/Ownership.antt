-- ===== src/Webhook/Handlers/Ownership.antt =====
-- Who may delete an endpoint, and what a deleted endpoint still receives.
use settlr.Prelude.{
  ◌≡◌, refl, false, List, [], ◌∷◌, String, ltb, count_where, update_where, All, arith,
}
use settlr.Errors.{Error, err}
use settlr.Webhook.{EndpointRow, Services, Hooks, IsLossless}
use settlr.Webhook.Repository.{owned_by, deactivate}
use settlr.Webhook.Handlers.{delete_endpoint_handler}

module _ (v : Services) (i user_id : String) where
  abbrev deactivated : EndpointRow → EndpointRow
  deactivated row = record row { is_active = false }

  -- No endpoint of the list is the one that the request names.
  abbrev pub IsRid : List EndpointRow → Type 0
  IsRid rows = All (λ row. owned_by v i user_id row ≡ false) rows

  unowned-unchanged :
      (rows : List EndpointRow)
      → ltb 0 (count_where (owned_by v i user_id) rows) ≡ false
      → update_where (owned_by v i user_id) deactivated rows ≡ rows
  unowned-unchanged [] h = refl
  unowned-unchanged (row ∷ rows) h = ground (arith, unowned-unchanged rows)

  -- A refused deletion changes no endpoint, if no statement takes effect without being answered.
  pub delete_endpoint_handler-refused :
      (s : Hooks) (e : Error)
      → IsLossless v
      → (delete_endpoint_handler v i user_id s).0 ≡ err e
      → (delete_endpoint_handler v i user_id s).1.endpoints ≡ s.endpoints
  unfolding delete_endpoint_handler deactivate
  delete_endpoint_handler-refused s e lossless h =
      ground (arith, lossless s.statements, unowned-unchanged s.endpoints)
