-- ===== src/Protocol.antt =====
-- src/protocol/ and state.rs: what travels between host and member.
pub mod Ids
pub mod State
pub mod Frame
