-- ===== src/Sdk.antt =====
-- The connector SDK, sdk/connector: retries and the registry.
pub mod Retry
pub mod Attempts
pub mod Recording
pub mod Registry
mod Tests
