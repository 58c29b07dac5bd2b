-- ===== src/Transaction.antt =====
-- transaction/: the NEO transaction format and the recognition of NEO and GAS transfers.
pub mod Types
pub mod Monad
pub mod Transfer
pub mod Deserialize
