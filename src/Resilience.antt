-- ===== src/Resilience.antt =====
-- internal/resilience: circuit breakers, their registry, and retries with backoff.
pub mod Breaker
pub mod Registry
pub mod Retry
pub mod Policy
