-- ===== src/Room/Actor/Decide.antt =====
-- room/actor.rs: the host's decision on a pending request.
pub mod Members
use veilroom.Prelude.{
  Bool, List, Option, Text, [], find, if◌then◌else◌, leb, none, not, remove_first, some, succ64,
  take, utf8_len, ◌&&◌, ◌==◌, ◌∷◌, nat_eq, list_eq, pair_eq,
}
use veilroom.Event.{ConnectionId, RequestId}
use veilroom.Admission.Queue.{JoinApplication, JoinRequest, QueueError}
use veilroom.Admission.Queue
use veilroom.Room.Action.{RoomAction, send_to, close_connection, notify_host, HostNotice, Message}
use veilroom.Room.Connections.{ConnectionEntry, ConnectionRole}
use veilroom.Room.Connections
use veilroom.Room.Environment.{Environment, Entropy}
use veilroom.Room.Member.{Member, MemberError, MemberTable}
use veilroom.Room.Member
use veilroom.Validation.{contains_control_char}
use veilroom.Room.Actor.{
  RoomActor, RoomError, ok, err, Effect, and_then_room, PendingTimeoutRequest,
}
use veilroom.Room.Actor.Broadcast.{queue_member_joined}
use veilroom.Room.Actor.Transition.{begin_epoch_transition}

abbrev pub requests_timeout : RequestId → PendingTimeoutRequest → Bool
requests_timeout id p = p.request_id == id

-- `rejected_message`: a reason that `JoinRejected::new` would refuse, or an empty one, is left out.
unfoldable pub rejected_message : Option Text → Message
rejected_message none = Message.join_rejected none
rejected_message (some t) =
    if leb (utf8_len t) 256 && not (contains_control_char t) && not (utf8_len t == 0)
    then Message.join_rejected (some t)
    else Message.join_rejected none

withdrawn : Option RequestId → List RoomAction
withdrawn none = []
withdrawn (some id) = notify_host (HostNotice.join_request_withdrawn id) ∷ []

module _ {L : Type 0} where
  timeout_requests_without : RoomActor L → RequestId → RoomActor L
  timeout_requests_without r id = record r {
    timeout_requests = remove_first (requests_timeout id) r.timeout_requests;
  }

module _ {L : Type 0} (env : Environment L) where
  -- The member is in the table; its connection is promoted, and a new epoch begins.
  admitted : RoomActor L → ConnectionId → Member → Entropy → Effect L (List RoomAction)
  admitted r connection m entropy =
      let known = Connections.register r.connections connection in
      let r' = record r { connections = (Connections.promote known connection m.member_id).0 } in
      let actions =
        send_to connection (Message.join_accepted m.member_id)
        ∷ notify_host (HostNotice.member_joined m.member_id m.nickname)
        ∷ [] in
      and_then_room (begin_epoch_transition env r' actions entropy)
        (λ r'' actions'. (queue_member_joined env r'' m, ok actions'))

  refused : RoomActor L → ConnectionId → MemberError → Effect L (List RoomAction)
  unfolding withdrawn rejected_message
  refused r connection e = (
    record r { connections = (Connections.remove r.connections connection).0 },
    ok (
        send_to connection (rejected_message (some (env.describe e)))
        ∷ close_connection connection
        ∷ notify_host (HostNotice.error (env.describe e))
        ∷ withdrawn (Connections.request_id r.connections connection)),
  )

  admit :
      RoomActor L
      → ConnectionId
      → Entropy
      → MemberTable × Member.Result Member
      → Effect L (List RoomAction)
  unfolding admitted refused
  admit r connection entropy (members, Member.Result.ok m) =
      admitted (record r { members = members }) connection m entropy
  admit r connection entropy (members, Member.Result.err e) =
      refused (record r { members = members }) connection e

  accept_taken :
      RoomActor L
      → Entropy
      → Queue.JoinRequestQueue × Queue.Result JoinRequest
      → Effect L (List RoomAction)
  unfolding admit
  accept_taken r entropy (requests, Queue.Result.err (QueueError.unknown id)) =
      (record r { requests = requests }, err (RoomError.unknown_request id))
  accept_taken r entropy (requests, Queue.Result.err e) =
      (record r { requests = requests }, err (RoomError.queue e))
  accept_taken r entropy (requests, Queue.Result.ok q) =
      let a = q.application in
      admit (record r { requests = requests }) q.connection entropy
        (Member.add r.members q.connection a.nickname a.ed25519_pubkey a.x25519_pubkey
          (succ64 r.epoch))

  accept_found :
      RoomActor L → RequestId → Entropy → Option PendingTimeoutRequest → Effect L (List RoomAction)
  unfolding accept_taken timeout_requests_without
  accept_found r id entropy (some p) = (
    timeout_requests_without r id,
    ok (notify_host (HostNotice.timeout_request_accepted id p.seconds) ∷ []),
  )
  accept_found r id entropy none = accept_taken r entropy (Queue.take r.requests id)

  unfoldable pub on_accept : RoomActor L → RequestId → Entropy → Effect L (List RoomAction)
  unfolding accept_found
  on_accept r id entropy = accept_found r id entropy (find (requests_timeout id) r.timeout_requests)

module _ {L : Type 0} where
  reject_taken :
      RoomActor L → Queue.JoinRequestQueue × Queue.Result JoinRequest → Effect L (List RoomAction)
  unfolding rejected_message
  reject_taken r (requests, Queue.Result.err (QueueError.unknown id)) =
      (record r { requests = requests }, err (RoomError.unknown_request id))
  reject_taken r (requests, Queue.Result.err e) =
      (record r { requests = requests }, err (RoomError.queue e))
  reject_taken r (requests, Queue.Result.ok q) = (
    record r {
      requests = requests;
      connections = (Connections.remove r.connections q.connection).0;
    },
    ok (send_to q.connection (rejected_message none) ∷ close_connection q.connection ∷ []),
  )

  reject_found : RoomActor L → RequestId → Option PendingTimeoutRequest → Effect L (List RoomAction)
  unfolding reject_taken timeout_requests_without
  reject_found r id (some p) = (
    timeout_requests_without r id,
    ok (notify_host (HostNotice.timeout_request_rejected id) ∷ []),
  )
  reject_found r id none = reject_taken r (Queue.take r.requests id)

  unfoldable pub on_reject : RoomActor L → RequestId → Effect L (List RoomAction)
  unfolding reject_found
  on_reject r id = reject_found r id (find (requests_timeout id) r.timeout_requests)
