-- ===== src/Transaction.antt =====
-- The packages transaction/basic and transaction/universal.
pub mod Types
pub mod Transfer
