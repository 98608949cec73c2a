-- ===== src/Control.antt =====
-- The control server's stores and checks.
pub mod Errors
pub mod Requests
pub mod Routes
pub mod Methods
pub mod Recent
pub mod Limits
pub mod Feeds
pub mod Http
pub mod Writes
mod Examples
