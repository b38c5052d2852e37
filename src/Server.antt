-- ===== src/Server.antt =====
-- packages/nap-server: rate limits, stores, access control and the authentication endpoints.
pub mod RateLimit
pub mod Stores
pub mod Challenges
pub mod Sessions
pub mod Acl
pub mod Audience
pub mod Audit
pub mod World
pub mod Clamp
pub mod Request
pub mod Complete
pub mod Issue
pub mod Refresh
pub mod View
