-- ===== src/Core.antt =====
-- packages/nap-core: the wire types, the error codes, the codecs and the NIP-98 proof check.
pub mod Types
pub mod Errors
pub mod Codec
pub mod Json
pub mod Platform
pub mod Proof
