-- ===== src/Gateway.antt =====
-- The communication gateway (cli/gateway).
pub mod RateLimiter
pub mod Reliability
pub mod EditPolicy
pub mod Stream
pub mod Health
pub mod Events
pub mod Segments
pub mod Adapter
pub mod Targets
pub mod Delivery
pub mod Send
pub mod Routes
pub mod Inbound
pub mod Bindings
pub mod Undelivered
