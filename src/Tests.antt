-- ===== src/Tests.antt =====
-- The theorems at concrete inputs, a module of examples for each part.
pub mod Data
pub mod Challenges
pub mod Sessions
pub mod Acl
pub mod Bounds
pub mod Express
pub mod Server
pub mod Client
pub mod Curve
pub mod Mint
pub mod Voucher
