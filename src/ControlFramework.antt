-- ===== src/ControlFramework.antt =====
-- services/control-framework: frameworks, controls and assessments, with their requests.
pub mod Domain
pub mod Controls
pub mod Repository
pub mod Service
pub mod Context
pub mod Handlers
pub mod Unreachable
pub mod Transitions
pub mod Assessing
mod Tests
