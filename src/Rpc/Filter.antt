-- ===== src/Rpc/Filter.antt =====
-- Filters on event messages (api/rpc/filter).
pub mod Operator
pub mod Values
pub mod Parser
pub mod Condition
pub mod Event
pub mod Numbers
pub mod Validate
pub mod Typed
pub mod Sound
pub mod Trailing
mod Tests
