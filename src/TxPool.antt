-- ===== src/TxPool.antt =====
-- The package transaction_pool: the core's wrappers, sorted lists, accounts and their collection.
pub mod Wrapper
pub mod Sorted
pub mod AccountTxs
pub mod Pending
pub mod Collect
mod Tests
