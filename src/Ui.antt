-- ===== src/Ui.antt =====
-- settlr-ui/src: the logic behind the screens.
pub mod Confirm
pub mod ConfirmStep
pub mod History
pub mod Recipients
pub mod SendMoney
pub mod Connection
