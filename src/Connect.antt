-- ===== src/Connect.antt =====
-- services/connect-service: the service that third parties call, and that calls them back.
pub mod EventTypes
pub mod RateLimiter
pub mod ReadModel
pub mod Access
pub mod Bulk
pub mod Webhooks
mod Tests
