-- ===== src/Webhooks.antt =====
-- services/webhooks: subscriptions, the deliveries of their webhooks, and the retries.
pub mod Delivery
pub mod Retries
pub mod Subscriptions
pub mod Dispatch
pub mod Handler
pub mod FanOut
mod Tests
