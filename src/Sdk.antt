-- ===== src/Sdk.antt =====
-- sdk/provider: the kit from which provider services are built.
pub mod Errors
mod Wire
mod Tests
