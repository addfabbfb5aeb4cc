-- ===== src/AuditTrail.antt =====
-- services/audit-trail: the append-only audit log and its hash chain.
pub mod Model
pub mod HashChain
pub mod Store
pub mod Handler
pub mod Walk
pub mod Commitment
pub mod Stored
pub mod Race
mod Tests
