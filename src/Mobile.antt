-- ===== src/Mobile.antt =====
-- apps/mobile/src: the app's encryption of messages, what it shows of them, and its stores.
pub mod Cipher
pub mod Render
pub mod Rooms
pub mod Requests
pub mod Chat
pub mod Keys
pub mod Refresher
pub mod Sync
pub mod KeyCache
pub mod Conversation
pub mod Composer
pub mod Samples
pub mod LegacyPolicy
pub mod Account
pub mod Base64
mod Tests
