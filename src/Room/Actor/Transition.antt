-- ===== src/Room/Actor/Transition.antt =====
-- room/actor.rs: the epoch transitions, their acknowledgements, and the end of the
-- room.
pub mod Members
pub mod Ended
pub mod Begin
pub mod Rekey
pub mod Acks
use veilroom.Prelude.{
  Bool, Bytes, List, Option, [], false, if◌then◌else◌, length, none, not, retain, some, succ64,
  true, ℕ, ◌++◌, ◌==◌, ◌∷◌, nat_eq, list_eq, pair_eq,
}
use veilroom.Prelude.HashMap
use veilroom.Event.{ConnectionId, MemberId}
use veilroom.Admission.{JoinPolicy}
use veilroom.Chat.Replay.{retain_epoch}
use veilroom.Limits.{TimeoutKind, timeout}
use veilroom.Protocol.State.{RoomState}
use veilroom.Room.Action.{RoomAction, send_to, close_connection, notify_host, HostNotice, Message}
use veilroom.Room.Connections
use veilroom.Room.Environment.{Environment, Entropy}
use veilroom.Room.Member.{Member}
use veilroom.Room.Member
use veilroom.Room.Actor.{RoomActor, RoomError, Result, ok, err, Effect, and_then_room, PendingEpoch}
use veilroom.Room.Actor.Broadcast.{queue_member_gone, msg_member_left}

abbrev pub epoch_wrap_ciphertext_len : ℕ
epoch_wrap_ciphertext_len = 48

-- `EpochWrap::new`
epoch_wrap_new : ℕ → Bytes → Bytes → Result Message
epoch_wrap_new epoch nonce ciphertext =
    if length ciphertext == epoch_wrap_ciphertext_len
    then ok (Message.epoch_wrap epoch nonce ciphertext)
    else err RoomError.protocol

-- The state of an open room under a policy.
abbrev pub state_of : JoinPolicy → RoomState
state_of JoinPolicy.open_joins = RoomState.open_room
state_of JoinPolicy.locked = RoomState.locked

ends : List ConnectionId → List RoomAction
ends [] = []
ends (c ∷ cs) = send_to c Message.shutdown ∷ close_connection c ∷ ends cs

is_destroyed : RoomState → Bool
is_destroyed RoomState.destroyed = true
is_destroyed _ = false

rebroadcast : Option ℕ → List RoomAction
rebroadcast none = []
rebroadcast (some seconds) = notify_host (HostNotice.timeout_rebroadcast seconds) ∷ []

module _ {L : Type 0} where
  unfoldable pub close_room : RoomActor L → Effect L (List RoomAction)
  unfolding ends is_destroyed
  close_room r = if is_destroyed r.state then (r, err RoomError.room_closed) else (
    record r { state = RoomState.destroyed },
    ok (ends (Connections.ids r.connections) ++ notify_host HostNotice.room_closed ∷ []),
  )

  -- The last acknowledgement: the pending key becomes active and the queued broadcasts go out.
  activate : RoomActor L → PendingEpoch → Effect L (List RoomAction)
  unfolding rebroadcast
  activate r completed = (
    record r {
      pending_epoch = none;
      epoch_key = some completed.key;
      state = state_of r.policy;
      pending_membership = [];
    },
    ok (r.pending_membership ++ rebroadcast r.room_timeout),
  )

  -- After an acknowledgement that was awaited, with the members that are still awaited.
  acknowledged : RoomActor L → PendingEpoch → List MemberId → Effect L (List RoomAction)
  unfolding activate
  acknowledged r pending [] = activate r pending
  acknowledged r pending (id ∷ ids) =
      (record r { pending_epoch = some (record pending { awaiting = id ∷ ids }) }, ok [])

  acknowledge : RoomActor L → PendingEpoch → List MemberId → Effect L (List RoomAction)
  unfolding acknowledged
  acknowledge r pending awaiting =
      if length awaiting == length pending.awaiting
      then (r, ok [])
      else acknowledged r pending awaiting

  ack_from : RoomActor L → PendingEpoch → Option MemberId → Effect L (List RoomAction)
  unfolding acknowledge
  ack_from r pending none = (r, ok [])
  ack_from r pending (some member_id) =
      acknowledge r pending (retain (λ id. not (id == member_id)) pending.awaiting)

  ack_pending : RoomActor L → ConnectionId → ℕ → Option PendingEpoch → Effect L (List RoomAction)
  unfolding ack_from
  ack_pending r connection epoch none = (r, ok [])
  ack_pending r connection epoch (some pending) =
      if epoch == pending.epoch
      then ack_from r pending (Connections.member_id r.connections connection)
      else (r, ok [])

  unfoldable pub on_epoch_ack : RoomActor L → ConnectionId → ℕ → Effect L (List RoomAction)
  unfolding ack_pending
  on_epoch_ack r connection epoch = ack_pending r connection epoch r.pending_epoch

module _ {L : Type 0} (env : Environment L) where
  -- The wrapped key of one member, as the action that sends it.
  sent_to : ConnectionId → Result Message → Result RoomAction
  sent_to connection (err e) = err e
  sent_to connection (ok message) = ok (send_to connection message)

  wrap_send : RoomActor L → Member → Option (Bytes × Bytes) → Result RoomAction
  unfolding epoch_wrap_new sent_to
  wrap_send r m none = err RoomError.crypto
  wrap_send r m (some (nonce, ciphertext)) =
      sent_to m.connection (epoch_wrap_new r.epoch nonce ciphertext)

  wrap_with : RoomActor L → Bytes → Entropy → Member → Option Bytes → Result RoomAction
  unfolding wrap_send
  wrap_with r key entropy m none = err RoomError.crypto
  wrap_with r key entropy m (some wrap_key) =
      wrap_send r m
        (env.wrap_epoch_key wrap_key key r.epoch r.session_id (entropy.nonce m.member_id))

  wrap_member : RoomActor L → Bytes → Entropy → Member → Result RoomAction
  unfolding wrap_with
  wrap_member r key entropy m =
      wrap_with r key entropy m
        (env.try_wrap_key_for r.host_identity m.x25519_pubkey r.session_id m.member_id)

  add_wrap :
      MemberId
      → Result RoomAction
      → Result (List RoomAction × List MemberId)
      → Result (List RoomAction × List MemberId)
  add_wrap id (err e) rest = err e
  add_wrap id (ok action) (err e) = err e
  add_wrap id (ok action) (ok (actions, awaiting)) = ok (action ∷ actions, id ∷ awaiting)

  -- The loop over the members: the actions, and the ids to wait for.
  wrap_all : RoomActor L → Bytes → Entropy → List Member → Result (List RoomAction × List MemberId)
  unfolding wrap_member add_wrap
  wrap_all r key entropy [] = ok ([], [])
  wrap_all r key entropy (m ∷ ms) =
      add_wrap m.member_id (wrap_member r key entropy m) (wrap_all r key entropy ms)

  -- The room of the next epoch, before its key is made.
  next_epoch : RoomActor L → RoomActor L
  next_epoch r = record r {
    epoch = succ64 r.epoch;
    chat_replay = retain_epoch r.chat_replay (succ64 r.epoch);
    room_sequence = succ64 r.room_sequence;
  }

  begin_wrapped :
      RoomActor L
      → Bytes
      → List RoomAction
      → Result (List RoomAction × List MemberId)
      → Effect L (List RoomAction)
  begin_wrapped r key actions (err e) = (r, err e)
  begin_wrapped r key actions (ok (wraps, awaiting)) = (
    record r {
      state = RoomState.epoch_transition;
      pending_epoch =
          some (record { epoch = r.epoch; key = key; awaiting = awaiting; started_at = r.now });
    },
    ok (actions ++ wraps),
  )

  begin_with : RoomActor L → List RoomAction → Entropy → Option Bytes → Effect L (List RoomAction)
  unfolding wrap_all begin_wrapped
  begin_with r actions entropy none = (r, err RoomError.crypto)
  begin_with r actions entropy (some key) =
      begin_wrapped r key actions (wrap_all r key entropy r.members.members)

  unfoldable pub begin_epoch_transition :
      RoomActor L → List RoomAction → Entropy → Effect L (List RoomAction)
  unfolding next_epoch begin_with
  begin_epoch_transition r actions entropy =
      begin_with (next_epoch r) actions entropy entropy.epoch_key

  -- The room without a member's entry in the table, its connection and its rate limit.
  unfoldable pub without : RoomActor L → Member → RoomActor L
  without r m = record r {
    members = (Member.remove r.members m.member_id).0;
    connections = (Connections.remove r.connections m.connection).0;
    rate_limits = HashMap.remove m.member_id r.rate_limits;
  }

  remove_found :
      RoomActor L
      → MemberId
      → ℕ
      → List RoomAction
      → Entropy
      → Option Member
      → Effect L (List RoomAction × Option Member)
  unfolding without
  remove_found r member_id event_type actions entropy none = (r, ok (actions, none))
  remove_found r member_id event_type actions entropy (some m) =
      and_then_room (begin_epoch_transition (without r m) actions entropy)
        (λ r' actions'. (queue_member_gone env r' member_id event_type, ok (actions', some m)))

  -- The actions so far and those of the transition, and the member that was removed.
  unfoldable pub remove_member :
      RoomActor L
      → MemberId
      → ℕ
      → List RoomAction
      → Entropy
      → Effect L (List RoomAction × Option Member)
  unfolding remove_found
  remove_member r member_id event_type actions entropy =
      if member_id == 0
      then (r, err RoomError.host_cannot_leave)
      else remove_found r member_id event_type actions entropy (Member.by_id r.members member_id)
