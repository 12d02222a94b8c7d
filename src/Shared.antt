-- ===== src/Shared.antt =====
-- What the server and the client share: JavaScript values, and packages/shared.
pub mod Bits
pub mod Value
pub mod Sorting
pub mod Message
pub mod Backoff
