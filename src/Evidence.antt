-- ===== src/Evidence.antt =====
-- services/evidence/internal: models, repository and sufficiency.
pub mod Model
pub mod Repository
pub mod Sufficiency
pub mod Handler
pub mod Sufficient
pub mod Tests
