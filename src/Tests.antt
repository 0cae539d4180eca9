-- ===== src/Tests.antt =====
-- Concrete inputs for the theorems of each part.
pub mod Pages
pub mod Access
pub mod History
pub mod Payment
pub mod Initiate
pub mod Confirm
pub mod Connection
pub mod Contention
pub mod Locks
pub mod Fraud
pub mod SendMoney
pub mod Webhook
pub mod Kafka
pub mod Books
pub mod Fresh
pub mod Gateway
pub mod Screens
pub mod Notification
pub mod Review
