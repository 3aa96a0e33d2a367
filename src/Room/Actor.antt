-- ===== src/Room/Actor.antt =====
-- room/actor.rs: the state of the room actor.
pub mod Table
pub mod Broadcast
pub mod Transition
pub mod Timeout
pub mod Admit
pub mod Decide
pub mod Leave
pub mod Relay
pub mod Receive
pub mod Handle
use veilroom.Prelude.{Bool, Bytes, List, Option, Text, false, true, ℕ, nat_eq, list_eq, pair_eq}
use veilroom.Prelude.HashMap.{HashMap}
use veilroom.Event.{ConnectionId, MemberId, RequestId, MemberRef}
use veilroom.Admission.{JoinPolicy}
use veilroom.Admission.Queue.{JoinRequestQueue, QueueError}
use veilroom.Chat.Replay.{ReplayTracker}
use veilroom.Limits.{Timeouts}
use veilroom.Protocol.State.{RoomState}
use veilroom.Room.Action.{RoomAction}
use veilroom.Room.Connections.{Connections}
use veilroom.Room.Member.{Member, MemberError, MemberTable}
use veilroom.Validation.{ValidationError}

-- Why a decrypted chat plaintext is refused: the text of `ChatError::InvalidPlaintext` says it.
pub data PlaintextError : Type 0 where
  not_chat_type color_length not_utf8 : PlaintextError
  host_timeout_request timeout_request_length timeout_request_range : PlaintextError
  not_host timeout_setting_length invalid_timeout_setting : PlaintextError
  invalid_text : ValidationError → PlaintextError

-- The errors of chat/mod.rs that the room returns.
pub data ChatError : Type 0 where
  no_epoch_key invalid_signature invalid_ciphertext : ChatError
  unknown_sender : ℕ → ChatError
  invalid_plaintext : PlaintextError → ChatError

pub data RoomError : Type 0 where
  queue : QueueError → RoomError
  member : MemberError → RoomError
  unknown_request : RequestId → RoomError
  unknown_member : MemberRef → RoomError
  unknown_connection not_a_member : ConnectionId → RoomError
  host_cannot_leave cannot_kick_host empty_member_ref policy_locked room_closed : RoomError
  epoch_transition_in_progress unsupported_event protocol crypto : RoomError
  old_epoch replay_rejected : ℕ → ℕ → RoomError
  chat : ChatError → RoomError
  unknown_color : ℕ → RoomError
  invalid_nickname : ValidationError → RoomError

unfoldable pub is_transient : RoomError → Bool
is_transient epoch_transition_in_progress = true
is_transient _ = false

pub data Result {ℓ} (A : Type ℓ) : Type ℓ where
  ok : A → Result A
  err : RoomError → Result A

pub record PendingEpoch : Type 0 where
  pub epoch : ℕ
  pub key : Bytes
  pub awaiting : List MemberId
  pub started_at : ℕ

pub record PendingTimeoutRequest : Type 0 where
  pub request_id : RequestId
  pub connection : ConnectionId
  pub member_id : MemberId
  pub nickname : Text
  pub seconds : ℕ

-- `L` is the state of a rate limiter.
pub record RoomActor (L : Type 0) : Type 0 where
  pub session_id : Bytes
  pub token : Bytes
  pub state : RoomState
  pub policy : JoinPolicy
  pub members : MemberTable
  pub connections : Connections
  pub requests : JoinRequestQueue
  pub timeout_requests : List PendingTimeoutRequest
  pub room_timeout : Option ℕ
  pub host_connection : ConnectionId
  pub host_identity : Bytes
  pub timeouts : Timeouts
  pub epoch : ℕ
  pub epoch_key : Option Bytes
  pub pending_epoch : Option PendingEpoch
  pub room_sequence : ℕ
  pub chat_replay : ReplayTracker
  pub rate_limits : HashMap MemberId L
  pub pending_membership : List RoomAction
  pub now : ℕ

-- A handler's effect: the room after it, whether it succeeds or not, and its result.
abbrev pub Effect : Type 0 → Type 0 → Type 0
Effect L A = RoomActor L × Result A

-- `?` after a call on the room.
abbrev pub and_then_room :
    {L A B : Type 0} → Effect L A → (RoomActor L → A → Effect L B) → Effect L B
and_then_room (r, err e) k = (r, err e)
and_then_room (r, ok a) k = k r a
