-- ===== src/Engagement.antt =====
-- The engagement service, services/engagement.
pub mod Lifecycle
pub mod Timeline
pub mod Store
pub mod Handler
pub mod Service
mod Tests
