-- ===== src/Voucher.antt =====
-- packages/nap-voucher: access granted by an ecash voucher.
pub mod Platform
pub mod Allowlist
pub mod Secret
pub mod Availability
pub mod Dleq
pub mod Mint
pub mod Options
pub mod Resolver
