-- ===== src/Scheduler.antt =====
-- The runtime scheduler: its policy state machine.
pub mod Policy
