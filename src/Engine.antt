-- ===== src/Engine.antt =====
-- packages/sync-engine/src: the client's room document and its connection.
pub mod Messages
pub mod Provider
pub mod Persistence
mod Tests
