-- ===== src/Client.antt =====
-- The web client, packages/nap-client-web.
pub mod Session
