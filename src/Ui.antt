-- ===== src/Ui.antt =====
-- ui/: addresses, the screens of a transaction, and the user's answer.
pub mod Utils
pub mod Signers
pub mod Navigation
pub mod Display
pub mod Steps
pub mod Menu
