-- ===== src/Webhook/RetryWorker.antt =====
-- retryWorker.ts: one poll. The interval that starts it every ten seconds is the caller.
pub mod Lifecycle
pub mod Posts
use settlr.Prelude.{ℕ, List, [], ◌∷◌}
use settlr.Action.{Action, pure, ◌>>=◌, ◌>>◌, settle}
use settlr.Webhook.{DeliveryRow, Services, Hooks}
use settlr.Webhook.Repository.{find_pending_retries}
use settlr.Webhook.Dispatcher.{retry_delivery}

module _ (v : Services) (now : ℕ) where
  -- The loop: the error of one delivery is logged.
  unfoldable pub retry_all : List DeliveryRow → Action Hooks (Unit {0})
  retry_all [] = pure tt
  retry_all (delivery ∷ deliveries) = do
    settle (retry_delivery v now delivery)
    retry_all deliveries

  -- processRetries: an error of the poll is logged.
  unfoldable pub process_retries : Action Hooks (Unit {0})
  process_retries = settle (find_pending_retries v now >>= retry_all)
