-- ===== src/Room/Actor/Admit.antt =====
-- room/actor.rs: join requests, and the rotation and the policy of the invitation.
pub mod Members
pub mod Closed
use veilroom.Prelude.{
  Bool, Bytes, List, Option, [], false, if◌then◌else◌, map, none, not, retain, some, succ64, true,
  ◌&&◌, ◌++◌, ◌∷◌, nat_eq, list_eq, pair_eq,
}
use veilroom.Event.{ConnectionId, RequestId}
use veilroom.Admission.{JoinPolicy, allows_join_requests}
use veilroom.Admission.Queue.{JoinApplication, JoinRequest, QueueError}
use veilroom.Admission.Queue
use veilroom.Room.Action.{RoomAction, close_connection, notify_host, HostNotice, Message}
use veilroom.Room.Connections.{ConnectionEntry, ConnectionRole}
use veilroom.Room.Connections
use veilroom.Room.Environment.{Environment, Entropy}
use veilroom.Room.Actor.{RoomActor, RoomError, ok, err, Effect}
use veilroom.Room.Actor.Broadcast.{signed, send_each}
use veilroom.Room.Actor.Transition.{state_of}

-- The notices and closings for the drained join requests, and the connections without them.
withdraw : List JoinRequest → List RoomAction
withdraw [] = []
withdraw (q ∷ qs) =
    close_connection q.connection
    ∷ notify_host (HostNotice.join_request_withdrawn q.id)
    ∷ withdraw qs

close_all : List ConnectionId → List RoomAction
close_all [] = []
close_all (c ∷ cs) = close_connection c ∷ close_all cs

remove_all : Connections.Connections → List ConnectionId → Connections.Connections
remove_all cs [] = cs
remove_all cs (id ∷ ids) = remove_all (Connections.remove cs id).0 ids

abbrev connection_of : JoinRequest → ConnectionId
connection_of q = q.connection

is_admission : ConnectionRole → Bool
is_admission ConnectionRole.admission = true
is_admission _ = false

module _ {L : Type 0} where
  -- Every pending application is rejected and every connection that is not a member's is closed.
  unfoldable pub close_admission : RoomActor L → RoomActor L × List RoomAction
  unfolding withdraw close_all remove_all
  close_admission r =
      let (requests, drained) = Queue.drain r.requests in
      let known = remove_all r.connections (map connection_of drained) in
      let others = Connections.non_member_ids known in
      (
        record r { requests = requests; connections = remove_all known others },
        withdraw drained ++ close_all others,
      )

  attached :
      RoomActor L
      → ConnectionId
      → JoinApplication
      → RequestId
      → Connections.Connections × Bool
      → Effect L (List RoomAction)
  attached r connection application request_id (connections, false) =
      (r, err (RoomError.unknown_connection connection))
  attached r connection application request_id (connections, true) = (
    record r { connections = connections; room_sequence = succ64 r.room_sequence },
    ok (
        notify_host (
          HostNotice.join_request_pending request_id connection application.nickname
            application.introduction)
        ∷ []),
  )

  pushed :
      RoomActor L
      → ConnectionId
      → JoinApplication
      → Queue.JoinRequestQueue × Queue.Result RequestId
      → Effect L (List RoomAction)
  unfolding attached
  pushed r connection application (requests, Queue.Result.err e) = (r, err (RoomError.queue e))
  pushed r connection application (requests, Queue.Result.ok request_id) =
      attached (record r { requests = requests }) connection application request_id
        (Connections.attach_request r.connections connection request_id)

  join_known :
      RoomActor L
      → ConnectionId
      → JoinApplication
      → Option ConnectionEntry
      → Effect L (List RoomAction)
  unfolding pushed is_admission
  join_known r connection application none = (r, err (RoomError.unknown_connection connection))
  join_known r connection application (some entry) =
      if entry.password_verified && is_admission entry.role
      then pushed r connection application (Queue.push r.requests connection application)
      else (r, err (RoomError.not_a_member connection))

  unfoldable pub on_join_requested :
      RoomActor L → ConnectionId → JoinApplication → Effect L (List RoomAction)
  unfolding join_known
  on_join_requested r connection application =
      if allows_join_requests r.policy
      then join_known r connection application (Connections.get r.connections connection)
      else (r, err RoomError.policy_locked)

module _ {L : Type 0} (env : Environment L) where
  rotate : RoomActor L → Option Bytes → Effect L (List RoomAction)
  unfolding close_admission
  rotate r none = (r, err RoomError.crypto)
  rotate r (some token) =
      let fresh = record r { token = token; room_sequence = succ64 r.room_sequence } in
      let (r', actions) = close_admission fresh in
      (r', ok (actions ++ notify_host (HostNotice.invitation_rotated token) ∷ []))

  unfoldable pub on_new_id : RoomActor L → Entropy → Effect L (List RoomAction)
  unfolding rotate
  on_new_id r entropy = rotate r entropy.token

  admission_closed : RoomActor L → JoinPolicy → RoomActor L × List RoomAction
  unfolding close_admission
  admission_closed r JoinPolicy.locked = close_admission r
  admission_closed r JoinPolicy.open_joins = (r, [])

  unfoldable pub set_policy : RoomActor L → JoinPolicy → Effect L (List RoomAction)
  unfolding admission_closed allows_join_requests
  set_policy room policy =
      let (closed, actions) = admission_closed room policy in
      let r = record closed {
        policy = policy;
        state = state_of policy;
        room_sequence = succ64 closed.room_sequence;
      } in
      let is_open = allows_join_requests policy in
      let message =
        Message.join_policy_changed (signed env r 0x23 (env.join_policy_body is_open)) is_open in
      (
        r,
        ok (
            actions
            ++ send_each message (retain (λ m. not m.is_host) r.members.members)
            ++ notify_host (HostNotice.join_policy_changed policy) ∷ []),
      )
