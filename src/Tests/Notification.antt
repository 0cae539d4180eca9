-- ===== src/Tests/Notification.antt =====
-- A payment that the fraud check declines, and its mails.
use settlr.Prelude.{true, List, [], ◌∷◌, some}
use settlr.Redis.{Key}
use settlr.Redis.Lock.{Locks, acquire_account_locks}
use settlr.Redis.Memory.{memory, empty}
use settlr.Database.{FraudAction}
use settlr.Kafka.{KafkaEvent}
use settlr.Payment.{Platform}
use settlr.Payment.Initiate.{State, fresh_payment}
use settlr.Notification.{PostResult, MailService, Mailbox}
use settlr.Tests.Payment.{platform, params, tables}

abbrev suspicious : Platform
suspicious = record platform {
  check_fraud = λ request. some (record { score = 90; action = FraudAction.decline; signals = [] });
}

abbrev quiet_world : State suspicious
quiet_world = record { store = empty; tables = tables; outbox = record { sent = []; drawn = 0 } }

abbrev mails : MailService
mails = record {
  has_api_key = true;
  post = λ n mail. PostResult.accepted;
  format_paise = λ amount. "₹0.30";
}

abbrev mailbox : Mailbox
mailbox = record { requests = []; count = 0 }

abbrev announced : List KafkaEvent
announced = (fresh_payment suspicious (params "b" 30) quiet_world).1.outbox.sent

abbrev both : Locks
both = record { acquired = true; lock_keys = Key.account_lock "a" ∷ Key.account_lock "b" ∷ [] }

abbrev locked_world : State suspicious
locked_world = record quiet_world { store = (acquire_account_locks memory "a" "b" 10 empty).1 }
