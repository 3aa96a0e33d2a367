-- ===== src/Event.antt =====
-- event.rs: the identifiers and the events that reach the room. An identifier wraps a `u64`.
use veilroom.Prelude.{Bytes, Option, Text, if◌then◌else◌, leb, length, none, some, ℕ, ◌&&◌}
use veilroom.Limits.{TimeoutKind}
use veilroom.Command.Color.{ColorChoice}

abbrev pub ConnectionId : Type 0
ConnectionId = ℕ

abbrev pub MemberId : Type 0
MemberId = ℕ

abbrev pub RequestId : Type 0
RequestId = ℕ

-- protocol/chat.rs
pub record EncryptedEnvelope : Type 0 where
  pub epoch : ℕ
  pub sender_id : ℕ
  pub sender_sequence : ℕ
  pub nonce : Bytes
  pub ciphertext : Bytes
  pub signature : Bytes

-- `EncryptedEnvelope::new`: the bounds of the ciphertext, a tag and 1 to 4096 bytes.
unfoldable pub new_envelope : ℕ → ℕ → ℕ → Bytes → Bytes → Bytes → Option EncryptedEnvelope
new_envelope epoch sender_id sender_sequence nonce ciphertext signature =
    if leb 17 (length ciphertext) && leb (length ciphertext) 4112
    then some (record {
      epoch = epoch;
      sender_id = sender_id;
      sender_sequence = sender_sequence;
      nonce = nonce;
      ciphertext = ciphertext;
      signature = signature;
    })
    else none

pub data MemberRef : Type 0 where
  id : MemberId → MemberRef
  nickname : Text → MemberRef

pub data HostCommand : Type 0 where
  kick : MemberRef → HostCommand
  new_id req_on req_off requests : HostCommand
  accept reject : RequestId → HostCommand

pub data MemberCommand : Type 0 where
  leave list : MemberCommand
  color : ColorChoice → MemberCommand
  whois : Text → MemberCommand

pub data RoomEvent : Type 0 where
  client_connected password_verified connection_lost : ConnectionId → RoomEvent
  join_requested : ConnectionId → Text → Option Text → Bytes → Bytes → Bytes → RoomEvent
  host_accepted host_rejected : RequestId → RoomEvent
  chat_received : ConnectionId → ℕ → EncryptedEnvelope → RoomEvent
  member_left : MemberId → RoomEvent
  host_command : HostCommand → RoomEvent
  member_command : ConnectionId → MemberCommand → RoomEvent
  epoch_ack : ConnectionId → ℕ → RoomEvent
  timeout_expired : ConnectionId → TimeoutKind → RoomEvent
  close_requested epoch_maintenance tor_stopped : RoomEvent
