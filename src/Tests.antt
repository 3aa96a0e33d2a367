-- ===== src/Tests.antt =====
-- The theorems at concrete inputs.
pub mod Wire
pub mod Chats
pub mod Sessions
pub mod Lines
pub mod Fields
pub mod Waiting
pub mod Members
pub mod Rooms
