-- ===== src/Ledger.antt =====
-- The databases: their versions, the one in memory, and a part of one under a prefix.
pub mod Version
pub mod MemDb
pub mod Prefix
