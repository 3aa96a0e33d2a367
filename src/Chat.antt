-- ===== src/Chat.antt =====
-- The chat layer, src/chat/.
pub mod Replay
pub mod Outbound
pub mod Session
