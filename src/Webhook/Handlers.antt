-- ===== src/Webhook/Handlers.antt =====
-- services/webhook-service/src/handlers/webhook.handler.ts, with findByUserId and getDeliveries of the
-- repository. A thrown error goes to the error handler; trace ids and message texts are left out.
pub mod Ownership
use settlr.Prelude.{
  ℕ, suc, ◌+◌, ◌-◌, ◌*◌, ◌/◌, ℤ, Bool, true, false, ◌&&◌, not, Option, none, some, List, [], ◌∷◌,
  map, String, same_text, leb, ltb, ◌==◌, min, if◌then◌else◌, keep, length, sort_by,
}
use settlr.Errors.{app, fault, Fault, Result, ok, err}
use settlr.Errors.Factory
use settlr.Action.{Action, pure, throw, throw_if, or_throw, ◌>>=◌, ◌>>◌}
use settlr.Account.{Page, page_of, page_count}
use settlr.Webhook.{EndpointRow, DeliveryRow, Services, Hooks, statement}
use settlr.Webhook.Repository.{create_endpoint, find_by_id, deactivate}

-- An endpoint as it is listed: without its secret.
pub record ListedEndpoint : Type 0 where
  pub id : String
  pub user_id : String
  pub url : String
  pub events : List String
  pub is_active : Bool
  pub created_at : ℕ

-- `delete obj.secret`
abbrev pub without_secret : EndpointRow → ListedEndpoint
without_secret row = record {
  id = row.id;
  user_id = row.user_id;
  url = row.url;
  events = row.events;
  is_active = row.is_active;
  created_at = row.created_at;
}

abbrev newest_endpoint : EndpointRow → EndpointRow → Bool
newest_endpoint a b = leb b.created_at a.created_at

abbrev newest_delivery : DeliveryRow → DeliveryRow → Bool
newest_delivery a b = leb b.created_at a.created_at

abbrev pub is_active_of : String → EndpointRow → Bool
is_active_of user_id row = same_text row.user_id user_id && row.is_active

-- Math.min(parseInt(limit) || 20, 100), from the parsed number.
abbrev pub delivery_limit : Option ℤ → ℤ
delivery_limit none = ℤ.pos 20
delivery_limit (some (ℤ.pos n)) = if n == 0 then ℤ.pos 20 else ℤ.pos (min n 100)
delivery_limit (some (ℤ.negsuc n)) = ℤ.negsuc n

-- parseInt(page) || 1
abbrev pub delivery_page : Option ℤ → ℤ
delivery_page none = ℤ.pos 1
delivery_page (some (ℤ.pos n)) = if n == 0 then ℤ.pos 1 else ℤ.pos n
delivery_page (some (ℤ.negsuc n)) = ℤ.negsuc n

-- `!endpoint || endpoint.user_id !== req.userId`
abbrev pub owned_endpoint : String → Option EndpointRow → Option EndpointRow
owned_endpoint user_id none = none
owned_endpoint user_id (some row) = if same_text row.user_id user_id then some row else none

module _ (v : Services) where
  -- findByUserId
  unfoldable pub find_by_user_id : String → Action Hooks (List EndpointRow)
  find_by_user_id user_id =
      statement v λ s. (ok (sort_by newest_endpoint (keep (is_active_of user_id) s.endpoints)), s)

  abbrev delivery_rows : String → Hooks → List DeliveryRow
  delivery_rows i s =
      sort_by newest_delivery (keep (λ row. same_text row.endpoint_id i) s.deliveries)

  -- getDeliveries, for a positive page and limit: the page, then the count.
  unfoldable pub get_deliveries : String → ℕ → ℕ → Action Hooks (List DeliveryRow × ℕ)
  get_deliveries i page limit = do
    items ← statement v λ s. (ok (page_of page limit (delivery_rows i s)), s)
    total ←
        statement v λ s. (ok (length (keep (λ row. same_text row.endpoint_id i) s.deliveries)), s)
    pure (items, total)

  -- registerEndpointHandler
  unfoldable pub register_endpoint_handler :
      ℕ → String → String → List String → Action Hooks EndpointRow
  register_endpoint_handler now user_id url events = create_endpoint v now user_id url events

  -- listEndpointsHandler
  unfoldable pub list_endpoints_handler : String → Action Hooks (List ListedEndpoint)
  unfolding find_by_user_id
  list_endpoints_handler user_id = do rows ← find_by_user_id user_id; pure (map without_secret rows)

  -- deleteEndpointHandler
  unfoldable pub delete_endpoint_handler : String → String → Action Hooks (Unit {0})
  delete_endpoint_handler i user_id = do
    deleted ← deactivate v i user_id
    throw_if (not deleted) (app Factory.not_found)

  abbrev pub delivery_page_of : List DeliveryRow × ℕ → ℕ → ℕ → Page DeliveryRow
  delivery_page_of result page limit =
      let total_pages = page_count result.1 limit in
      record {
        items = result.0;
        total = result.1;
        page = page;
        limit = limit;
        total_pages = total_pages;
        has_more = ltb page total_pages;
      }

  -- PostgreSQL refuses a negative LIMIT or OFFSET.
  abbrev pub read_deliveries : String → ℤ → ℤ → Action Hooks (Page DeliveryRow)
  read_deliveries i (ℤ.pos page) (ℤ.pos limit) = do
    result ← get_deliveries i page limit
    pure (delivery_page_of result page limit)
  read_deliveries i page limit = throw (fault Fault.database_error)

  -- getDeliveriesHandler
  unfoldable pub get_deliveries_handler :
      String → String → Option ℤ → Option ℤ → Action Hooks (Page DeliveryRow)
  unfolding get_deliveries
  get_deliveries_handler i user_id page limit = do
    endpoint ← find_by_id v i
    or_throw (owned_endpoint user_id endpoint) (app Factory.not_found)
    read_deliveries i (delivery_page page) (delivery_limit limit)
