-- ===== src/Execution.antt =====
-- The execution of packed transactions (execution/).
pub mod Scheduler
