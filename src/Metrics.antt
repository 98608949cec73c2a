-- ===== src/Metrics.antt =====
-- The metrics registry.
pub mod Pending
pub mod Window
pub mod Fifo
pub mod Frames
pub mod Rates
mod Examples
