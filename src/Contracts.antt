-- ===== src/Contracts.antt =====
-- internal/providers/contracts: what a provider promises its callers.
pub mod Errors
