-- ===== src/Llm.antt =====
-- The cloud-analysis module: circuit breaker, request queue, router.
pub mod Breaker
pub mod Prompts
pub mod Queue
pub mod Router
