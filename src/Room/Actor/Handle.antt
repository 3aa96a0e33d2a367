-- ===== src/Room/Actor/Handle.antt =====
-- room/actor.rs: `create`, `start`, and the handler of the room's events.
pub mod Members
pub mod Ended
pub mod Reachable
use veilroom.Prelude.{Bytes, List, Option, Text, [], if◌then◌else◌, map, none, some, ℕ, ◌∷◌}
use veilroom.Event.{ConnectionId, RoomEvent, HostCommand}
use veilroom.Admission.{JoinPolicy}
use veilroom.Admission.Queue.{JoinRequest}
use veilroom.Admission.Queue
use veilroom.Chat.Replay
use veilroom.Limits.{Limits, Timeouts, TimeoutKind}
use veilroom.Protocol.State.{RoomState}
use veilroom.Room.Action.{RoomAction, notify_host, HostNotice, RequestInfo, TimeoutRequestInfo}
use veilroom.Room.Connections
use veilroom.Room.Environment.{Environment, Entropy}
use veilroom.Room.Member
use veilroom.Validation
use veilroom.Validation.{validate_nickname}
use veilroom.Room.Actor.{RoomActor, RoomError, Result, ok, err, Effect, PendingTimeoutRequest}
use veilroom.Room.Actor.Transition.{begin_epoch_transition, on_epoch_ack, close_room}
use veilroom.Room.Actor.Timeout.{on_epoch_timeout}
use veilroom.Room.Actor.Admit.{on_join_requested, on_new_id, set_policy}
use veilroom.Room.Actor.Decide.{on_accept, on_reject}
use veilroom.Room.Actor.Leave.{on_kick, on_member_left, on_member_command, on_connection_lost}
use veilroom.Room.Actor.Relay.{member_has_acked_pending_epoch, reject_during_transition}
use veilroom.Room.Actor.Receive.{on_chat_received}

request_info : JoinRequest → RequestInfo
request_info q = record {
  request_id = q.id;
  connection = q.connection;
  nickname = q.application.nickname;
  introduction = q.application.introduction;
}

timeout_request_info : PendingTimeoutRequest → TimeoutRequestInfo
timeout_request_info p = record {
  request_id = p.request_id;
  member_id = p.member_id;
  nickname = p.nickname;
  seconds = p.seconds;
}

module _ {L : Type 0} (env : Environment L) where
  created :
      Limits → ConnectionId → Text → Bytes → Bytes → Bytes → Timeouts → Bytes → Bytes → RoomActor L
  created limits connection nickname identity ed25519_pubkey x25519_pubkey timeouts session token =
      record {
        session_id = session;
        token = token;
        state = RoomState.creating;
        policy = JoinPolicy.open_joins;
        members =
            (Member.add_host (Member.new limits.max_active_members) connection nickname
              ed25519_pubkey x25519_pubkey).0;
        connections = Connections.new;
        requests = Queue.with_capacity limits.max_pending_requests;
        timeout_requests = [];
        room_timeout = none;
        host_connection = connection;
        host_identity = identity;
        timeouts = timeouts;
        epoch = 0;
        epoch_key = none;
        pending_epoch = none;
        room_sequence = 0;
        chat_replay = Replay.new;
        rate_limits = [];
        pending_membership = [];
        now = 0;
      }

  create_with :
      Limits
      → ConnectionId
      → Bytes
      → Bytes
      → Bytes
      → Timeouts
      → Validation.Result Text
      → Option Bytes
      → Option Bytes
      → Result (RoomActor L)
  unfolding created
  create_with limits c identity ed x timeouts (Validation.Result.err e) session token =
      err (RoomError.invalid_nickname e)
  create_with limits c identity ed x timeouts (Validation.Result.ok name) none token =
      err RoomError.crypto
  create_with limits c identity ed x timeouts (Validation.Result.ok name) (some session) none =
      err RoomError.crypto
  create_with limits c identity ed x timeouts (Validation.Result.ok name) (some session)
        (some token) =
      ok (created limits c name identity ed x timeouts session token)

  -- The host's identity, its two public keys, and the session id and token that were drawn, if any.
  unfoldable pub create :
      Limits
      → ConnectionId
      → Text
      → Bytes
      → Bytes
      → Bytes
      → Timeouts
      → Option Bytes
      → Option Bytes
      → Result (RoomActor L)
  unfolding create_with
  create limits c nickname identity ed x timeouts session token =
      create_with limits c identity ed x timeouts
        (validate_nickname env.nfc env.is_whitespace nickname limits) session token

module _ {L : Type 0} where
  requests_snapshot : RoomActor L → List RoomAction
  unfolding request_info timeout_request_info
  requests_snapshot r =
      notify_host (
        HostNotice.requests_snapshot (map request_info r.requests.requests)
          (map timeout_request_info r.timeout_requests))
      ∷ []

module _ {L : Type 0} (env : Environment L) where
  start_from : RoomActor L → Entropy → RoomState → Effect L (List RoomAction)
  start_from r entropy RoomState.creating =
      let known = Connections.register r.connections r.host_connection in
      begin_epoch_transition env
        (record r { connections = (Connections.promote known r.host_connection 0).0 })
        (notify_host (HostNotice.invitation_rotated r.token) ∷ []) entropy
  start_from r entropy _ = (r, err RoomError.room_closed)

  unfoldable pub start : RoomActor L → Entropy → Effect L (List RoomAction)
  unfolding start_from
  start r entropy = start_from r entropy r.state

  on_host_command : RoomActor L → HostCommand → Entropy → Effect L (List RoomAction)
  unfolding requests_snapshot
  on_host_command r (HostCommand.kick target) entropy = on_kick env r target entropy
  on_host_command r HostCommand.new_id entropy = on_new_id env r entropy
  on_host_command r HostCommand.req_on entropy = set_policy env r JoinPolicy.open_joins
  on_host_command r HostCommand.req_off entropy = set_policy env r JoinPolicy.locked
  on_host_command r HostCommand.requests entropy = (r, ok (requests_snapshot r))
  on_host_command r (HostCommand.accept id) entropy = on_accept env r id entropy
  on_host_command r (HostCommand.reject id) entropy = on_reject r id

  -- The events that are handled while an epoch transition is pending.
  in_transition : RoomActor L → RoomEvent → Entropy → Effect L (List RoomAction)
  unfolding on_host_command
  in_transition r (RoomEvent.epoch_ack c epoch) entropy = on_epoch_ack r c epoch
  in_transition r (RoomEvent.connection_lost c) entropy = on_connection_lost env r c entropy
  in_transition r (RoomEvent.timeout_expired c TimeoutKind.epoch_acknowledgement) entropy =
      on_epoch_timeout env r entropy
  in_transition r (RoomEvent.timeout_expired c kind) entropy = on_connection_lost env r c entropy
  in_transition r RoomEvent.epoch_maintenance entropy = on_epoch_timeout env r entropy
  in_transition r RoomEvent.close_requested entropy = close_room r
  in_transition r RoomEvent.tor_stopped entropy = close_room r
  in_transition r (RoomEvent.host_command HostCommand.requests) entropy =
      on_host_command r HostCommand.requests entropy
  in_transition r (RoomEvent.chat_received c message_type e) entropy =
      if member_has_acked_pending_epoch r c
      then on_chat_received env r c message_type e entropy
      else reject_during_transition r c
  in_transition r event entropy = (r, err RoomError.epoch_transition_in_progress)

  in_session : RoomActor L → RoomEvent → Entropy → Effect L (List RoomAction)
  unfolding on_host_command
  in_session r (RoomEvent.client_connected c) entropy =
      (record r { connections = Connections.register r.connections c }, ok [])
  in_session r (RoomEvent.password_verified c) entropy =
      (record r { connections = (Connections.mark_password_verified r.connections c).0 }, ok [])
  in_session r (RoomEvent.epoch_ack c epoch) entropy = on_epoch_ack r c epoch
  in_session r (RoomEvent.join_requested c nickname introduction ed x signature) entropy =
      on_join_requested r c (record {
        nickname = nickname;
        introduction = introduction;
        ed25519_pubkey = ed;
        x25519_pubkey = x;
        signature = signature;
      })
  in_session r (RoomEvent.host_command command) entropy = on_host_command r command entropy
  in_session r (RoomEvent.member_command c command) entropy =
      on_member_command env r c command entropy
  in_session r (RoomEvent.host_accepted id) entropy = on_accept env r id entropy
  in_session r (RoomEvent.host_rejected id) entropy = on_reject r id
  in_session r (RoomEvent.connection_lost c) entropy = on_connection_lost env r c entropy
  in_session r (RoomEvent.timeout_expired c kind) entropy = on_connection_lost env r c entropy
  in_session r RoomEvent.epoch_maintenance entropy = (r, ok [])
  in_session r (RoomEvent.member_left m) entropy = on_member_left env r m entropy
  in_session r (RoomEvent.chat_received c message_type e) entropy =
      on_chat_received env r c message_type e entropy
  in_session r RoomEvent.tor_stopped entropy = close_room r
  in_session r RoomEvent.close_requested entropy = close_room r

  by_state : RoomActor L → RoomState → RoomEvent → Entropy → Effect L (List RoomAction)
  unfolding in_transition in_session
  by_state r RoomState.closing event entropy = (r, err RoomError.room_closed)
  by_state r RoomState.destroyed event entropy = (r, err RoomError.room_closed)
  by_state r RoomState.epoch_transition event entropy = in_transition r event entropy
  by_state r _ event entropy = in_session r event entropy

  unfoldable pub handle_event_at :
      RoomActor L → RoomEvent → ℕ → Entropy → Effect L (List RoomAction)
  unfolding by_state
  handle_event_at r event now entropy =
      let r' = record r { now = now } in by_state r' r.state event entropy
