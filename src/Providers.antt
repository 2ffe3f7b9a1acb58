-- ===== src/Providers.antt =====
-- internal/providers: the providers that keep their own state.
pub mod Mock
