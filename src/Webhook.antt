-- ===== src/Webhook.antt =====
-- services/webhook: endpoints, the delivery queue and the worker that empties it.
pub mod Store
pub mod Worker
pub mod Handler
mod Tracked
pub mod Settling
pub mod Waiting
pub mod Requests
pub mod Undelivered
mod Tests
