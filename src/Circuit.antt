-- ===== src/Circuit.antt =====
-- The circuit breakers: sdk/connector/circuit and services/integration/internal/connector.
pub mod State
pub mod Breaker
pub mod Diagram
pub mod Probe
pub mod Connector
pub mod Agreement
mod Tests
