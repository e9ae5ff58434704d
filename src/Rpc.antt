-- ===== src/Rpc.antt =====
-- The event subscriptions of the RPC server (api/rpc): filters, queues and subscribers.
pub mod Filter
pub mod Queue
pub mod Subscription
