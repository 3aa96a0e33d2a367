-- ===== src/Room.antt =====
-- src/room/: the state of a room and its single writer.
pub mod Connections
pub mod Member
pub mod Action
pub mod Environment
pub mod Actor
