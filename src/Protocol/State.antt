-- ===== src/Protocol/State.antt =====
-- state.rs: the states of a connection and of the room, and which messages a connection accepts.
pub mod Accepts
use veilroom.Prelude.{Bool, false, true}
use veilroom.Protocol.Ids.{
  MessageClass, handshake, authentication, join, membership, chat, epoch, control,
}

pub data ConnectionState : Type 0 where
  disconnected tor_connecting protocol_handshake pre_auth : ConnectionState
  password_verified join_pending active closing : ConnectionState

pub data RoomState : Type 0 where
  creating open_room locked epoch_transition invite_rotating closing destroyed : RoomState

unfoldable pub accepts : ConnectionState → MessageClass → Bool
accepts protocol_handshake handshake = true
accepts protocol_handshake control = true
accepts pre_auth authentication = true
accepts pre_auth control = true
accepts password_verified join = true
accepts password_verified control = true
accepts join_pending control = true
accepts active membership = true
accepts active chat = true
accepts active epoch = true
accepts active control = true
accepts ConnectionState.closing control = true
accepts _ _ = false

unfoldable pub accepts_join_requests : RoomState → Bool
accepts_join_requests open_room = true
accepts_join_requests _ = false
