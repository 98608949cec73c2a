-- ===== src/Events.antt =====
-- The event rules over tracked objects.
pub mod Types
pub mod State
pub mod Passes
pub mod Engine
pub mod Streams
pub mod Tracks
pub mod Emits
pub mod Counted
pub mod Balance
pub mod Lifecycle
pub mod Latch
pub mod Zones
mod Examples
