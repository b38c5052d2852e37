-- ===== src/Express.antt =====
-- packages/nap-adapter-express/src/adapter.ts: the guards and the endpoints over HTTP.
pub mod Http
pub mod Guards
pub mod Handlers
