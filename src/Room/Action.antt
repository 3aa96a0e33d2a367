-- ===== src/Room/Action.antt =====
-- room/action.rs: what the room asks of its surroundings, with the messages it sends.
use veilroom.Prelude.{Bool, Bytes, List, Option, Text, ℕ}
use veilroom.Event.{ConnectionId, MemberId, RequestId, EncryptedEnvelope}
use veilroom.Admission.{JoinPolicy}
use veilroom.Protocol.Ids.{ErrorCode}
use veilroom.Room.Member.{MemberInfo}

pub record SnapshotMember : Type 0 where
  pub member_id : ℕ
  pub nickname : Text
  pub color : ℕ
  pub is_host : Bool
  pub ed25519_pubkey : Bytes

-- The part of a signed room event that every such message carries.
pub record Signed : Type 0 where
  pub sequence : ℕ
  pub epoch : ℕ
  pub signature : Bytes

-- The messages of protocol/messages.rs that the room and its members send each other in a session.
pub data Message : Type 0 where
  shutdown : Message
  join_accepted : ℕ → Message
  join_rejected : Option Text → Message
  error : ErrorCode → Text → Message
  epoch_wrap : ℕ → Bytes → Bytes → Message
  member_joined : Signed → ℕ → Text → Bytes → Message
  member_left member_kicked : Signed → ℕ → Message
  join_policy_changed : Signed → Bool → Message
  member_snapshot : Signed → List SnapshotMember → Message
  chat_message color_change timeout_request timeout_changed : EncryptedEnvelope → Message

pub record RequestInfo : Type 0 where
  pub request_id : RequestId
  pub connection : ConnectionId
  pub nickname : Text
  pub introduction : Option Text

pub record TimeoutRequestInfo : Type 0 where
  pub request_id : RequestId
  pub member_id : MemberId
  pub nickname : Text
  pub seconds : ℕ

pub data HostNotice : Type 0 where
  join_request_pending : RequestId → ConnectionId → Text → Option Text → HostNotice
  join_request_withdrawn : RequestId → HostNotice
  timeout_request_pending : RequestId → MemberId → Text → ℕ → HostNotice
  timeout_request_accepted : RequestId → ℕ → HostNotice
  timeout_request_rejected : RequestId → HostNotice
  timeout_rebroadcast : ℕ → HostNotice
  member_joined member_left member_kicked : MemberId → Text → HostNotice
  join_policy_changed : JoinPolicy → HostNotice
  invitation_rotated : Bytes → HostNotice
  requests_snapshot : List RequestInfo → List TimeoutRequestInfo → HostNotice
  list_snapshot : List MemberInfo → HostNotice
  whois_result : MemberInfo → HostNotice
  room_closed : HostNotice
  error : Text → HostNotice

pub data RoomAction : Type 0 where
  send_to : ConnectionId → Message → RoomAction
  close_connection : ConnectionId → RoomAction
  notify_host : HostNotice → RoomAction
