-- ===== src/Gateway.antt =====
-- services/gateway: the rate limiter.
pub mod RateLimit
pub mod Remembered
pub mod Window
mod Tests
