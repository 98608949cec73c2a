-- ===== src/Llm/Router.antt =====
-- The router of cloud-analysis requests.
pub mod Types
pub mod State
pub mod Submit
pub mod Process
pub mod Histories
pub mod Accounting
pub mod Breakers
pub mod Lines
pub mod Answers
mod Examples
