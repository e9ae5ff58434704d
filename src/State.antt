-- ===== src/State.antt =====
-- The state: named stores of keys and values, and the registers of nodes kept in them.
pub mod Store
pub mod Node
