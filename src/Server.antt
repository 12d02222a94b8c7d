-- ===== src/Server.antt =====
-- apps/server: the database, the room and key services, the update gate and the sync gateway.
pub mod Http
pub mod Db
pub mod Rooms
pub mod Auth
pub mod RoomKeys
pub mod Gate
pub mod Gateway
