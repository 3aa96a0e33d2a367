-- ===== src/Room/Actor/Timeout.antt =====
-- room/actor.rs: the deadline of an epoch transition.
pub mod Members
use veilroom.Prelude.{
  List, Option, [], contains, if◌then◌else◌, ltb, none, some, ◌-◌, ◌∷◌, nat_eq, list_eq, pair_eq,
}
use veilroom.Prelude.HashMap
use veilroom.Event.{ConnectionId, MemberId}
use veilroom.Admission.{JoinPolicy}
use veilroom.Chat.Replay.{retain_epoch}
use veilroom.Limits.{TimeoutKind, timeout}
use veilroom.Protocol.State.{RoomState}
use veilroom.Room.Action.{RoomAction, send_to, close_connection, notify_host, HostNotice, Message}
use veilroom.Room.Connections
use veilroom.Room.Environment.{Environment, Entropy}
use veilroom.Room.Member.{Member}
use veilroom.Room.Member
use veilroom.Room.Actor.{RoomActor, RoomError, Result, ok, err, Effect, and_then_room, PendingEpoch}
use veilroom.Room.Actor.Broadcast.{queue_member_gone, msg_member_left}
use veilroom.Room.Actor.Transition.{close_room, begin_epoch_transition, without}

module _ {L : Type 0} (env : Environment L) where
  -- The members that are still awaited leave: the room, the actions, and the ids removed.
  evict_found :
      RoomActor L
      → Option Member
      → (RoomActor L → RoomActor L × List RoomAction × List MemberId)
      → RoomActor L × List RoomAction × List MemberId
  evict_found r none rest = rest r
  evict_found r (some m) rest =
      let (r', actions, removed) = rest (without env r m) in
      (
        r',
        close_connection m.connection
            ∷ notify_host (HostNotice.member_left m.member_id m.nickname)
            ∷ actions,
        m.member_id ∷ removed,
      )

  evict : RoomActor L → List MemberId → RoomActor L × List RoomAction × List MemberId
  unfolding evict_found
  evict r [] = (r, [], [])
  evict r (id ∷ ids) = evict_found r (Member.by_id r.members id) (λ r'. evict r' ids)

  queue_all_gone : RoomActor L → List MemberId → RoomActor L
  queue_all_gone r [] = r
  queue_all_gone r (id ∷ ids) = queue_all_gone (queue_member_gone env r id msg_member_left) ids

  time_out : RoomActor L → List MemberId → Entropy → Effect L (List RoomAction)
  unfolding evict queue_all_gone
  time_out r timed_out entropy =
      if contains timed_out 0
      then close_room r
      else (let (r', actions, removed) = evict r timed_out in
          and_then_room (begin_epoch_transition env r' actions entropy)
            (λ r'' actions'. (queue_all_gone r'' removed, ok actions')))

  timeout_pending : RoomActor L → Entropy → Option PendingEpoch → Effect L (List RoomAction)
  unfolding time_out
  timeout_pending r entropy none = (r, ok [])
  timeout_pending r entropy (some pending) =
      if ltb (r.now - pending.started_at) (timeout r.timeouts TimeoutKind.epoch_acknowledgement)
      then (r, ok [])
      else time_out (record r { pending_epoch = none }) pending.awaiting entropy

  unfoldable pub on_epoch_timeout : RoomActor L → Entropy → Effect L (List RoomAction)
  unfolding timeout_pending
  on_epoch_timeout r entropy = timeout_pending r entropy r.pending_epoch
