-- ===== src/Approval.antt =====
-- services/approval: the approval workflow, its store and its HTTP handlers.
pub mod Types
pub mod Workflow
pub mod Diagram
pub mod History
pub mod Release
pub mod Store
pub mod Handler
mod Tests
