-- ===== src/Planning.antt =====
-- services/planning: strategic and annual plans, assurance maps and resource calendars, with their
-- stores and handlers.
pub mod Annual
pub mod Store
pub mod Assurance
pub mod Strategic
pub mod Calendar
pub mod Utilisation
pub mod Repository
pub mod Stores
pub mod Handler
pub mod Service
pub mod Modify
pub mod Keeping
pub mod Actions
pub mod Safe
pub mod Isolation
pub mod Approvers
pub mod Uniqueness
pub mod Calls
mod Tests
