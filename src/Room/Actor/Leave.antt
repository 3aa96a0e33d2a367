-- ===== src/Room/Actor/Leave.antt =====
-- room/actor.rs: how members leave, and the commands of a member.
pub mod Members
use veilroom.Prelude.{
  Bool, List, Option, [], if◌then◌else◌, map, none, not, or_else, retain, some, take, ℕ, ◌++◌, ◌==◌,
  ◌∷◌, nat_eq, list_eq, pair_eq,
}
use veilroom.Event.{ConnectionId, MemberId, RequestId, MemberRef, MemberCommand}
use veilroom.Admission.Queue
use veilroom.Command.Color.{ColorChoice}
use veilroom.Room.Action.{RoomAction, send_to, close_connection, notify_host, HostNotice, Message}
use veilroom.Room.Connections
use veilroom.Room.Environment.{Environment, Entropy}
use veilroom.Room.Member.{Member, info}
use veilroom.Room.Member
use veilroom.Room.Actor.{
  RoomActor, RoomError, Result, ok, err, Effect, and_then_room, PendingTimeoutRequest,
}
use veilroom.Room.Actor.Broadcast.{msg_member_left, msg_member_kicked}
use veilroom.Room.Actor.Transition.{remove_member, close_room}

known_member : MemberRef → Option Member → Result Member
known_member target none = err (RoomError.unknown_member target)
known_member target (some m) = ok m

abbrev timeout_of : ConnectionId → PendingTimeoutRequest → Bool
timeout_of connection p = p.connection == connection

abbrev rejected_timeout : PendingTimeoutRequest → RoomAction
rejected_timeout p = notify_host (HostNotice.timeout_request_rejected p.request_id)

abbrev id_of : Member → MemberId
id_of m = m.member_id

abbrev option_map {ℓ κ} : {A : Type ℓ} {B : Type κ} → (A → B) → Option A → Option B
option_map f none = none
option_map f (some a) = some (f a)

module _ {L : Type 0} where
  unfoldable pub resolve_member : RoomActor L → MemberRef → Result Member
  unfolding known_member
  resolve_member r (MemberRef.id id) = known_member (MemberRef.id id) (Member.by_id r.members id)
  resolve_member r (MemberRef.nickname []) = err RoomError.empty_member_ref
  resolve_member r (MemberRef.nickname n) =
      known_member (MemberRef.nickname n) (Member.by_nickname r.members n)

  recolored :
      RoomActor L → ConnectionId → ColorChoice → Option MemberId → Effect L (List RoomAction)
  recolored r connection color (some id) =
      (record r { members = Member.set_color r.members id color }, ok [])
  recolored r connection color none =
      if connection == r.host_connection
      then (record r { members = Member.set_color r.members 0 color }, ok [])
      else (r, err (RoomError.not_a_member connection))

  unfoldable pub on_color : RoomActor L → ConnectionId → ColorChoice → Effect L (List RoomAction)
  unfolding recolored
  on_color r connection color =
      recolored r connection color (Connections.member_id r.connections connection)

module _ {L : Type 0} (env : Environment L) where
  after_gone :
      (Member → List RoomAction)
      → RoomActor L
      → List RoomAction × Option Member
      → Effect L (List RoomAction)
  after_gone after r (actions, none) = (r, ok [])
  after_gone after r (actions, some m) = (r, ok (actions ++ after m))

  -- `remove_member` with no actions before it, and the actions that follow it when the member was
  -- there; when it was not, there are none.
  gone :
      RoomActor L → MemberId → ℕ → Entropy → (Member → List RoomAction) → Effect L (List RoomAction)
  unfolding after_gone
  gone r id event_type entropy after =
      and_then_room (remove_member env r id event_type [] entropy) (after_gone after)

  leave_from : RoomActor L → ConnectionId → Entropy → Option MemberId → Effect L (List RoomAction)
  unfolding gone
  leave_from r connection entropy none = (r, err (RoomError.not_a_member connection))
  leave_from r connection entropy (some id) = gone r id msg_member_left entropy (λ m.
      send_to connection Message.shutdown
      ∷ close_connection connection
      ∷ notify_host (HostNotice.member_left id m.nickname)
      ∷ [])

  unfoldable pub on_leave : RoomActor L → ConnectionId → Entropy → Effect L (List RoomAction)
  unfolding leave_from
  on_leave r connection entropy =
      if connection == r.host_connection
      then (r, err RoomError.host_cannot_leave)
      else leave_from r connection entropy (Connections.member_id r.connections connection)

  kicked : RoomActor L → Entropy → MemberRef → MemberId → Option Member → Effect L (List RoomAction)
  unfolding gone
  kicked r entropy target id none = (r, err (RoomError.unknown_member target))
  kicked r entropy target id (some m) =
      if m.is_host
      then (r, err RoomError.cannot_kick_host)
      else gone r id msg_member_kicked entropy (λ k.
        close_connection m.connection ∷ notify_host (HostNotice.member_kicked id k.nickname) ∷ [])

  kick_resolved : RoomActor L → Entropy → MemberRef → Result Member → Effect L (List RoomAction)
  unfolding kicked
  kick_resolved r entropy target (err e) = (r, err e)
  kick_resolved r entropy target (ok m) =
      kicked r entropy target m.member_id (Member.by_id r.members m.member_id)

  unfoldable pub on_kick : RoomActor L → MemberRef → Entropy → Effect L (List RoomAction)
  unfolding kick_resolved
  on_kick r target entropy = kick_resolved r entropy target (resolve_member r target)

  unfoldable pub on_member_left : RoomActor L → MemberId → Entropy → Effect L (List RoomAction)
  unfolding gone
  on_member_left r id entropy =
      gone r id msg_member_left entropy
        (λ m. notify_host (HostNotice.member_left id m.nickname) ∷ [])

  unfoldable pub on_member_command :
      RoomActor L → ConnectionId → MemberCommand → Entropy → Effect L (List RoomAction)
  on_member_command r connection MemberCommand.leave entropy = on_leave r connection entropy
  on_member_command r connection (MemberCommand.color c) entropy = on_color r connection c
  on_member_command r connection MemberCommand.list entropy =
      (r, ok (notify_host (HostNotice.list_snapshot (map info r.members.members)) ∷ []))
  on_member_command r connection (MemberCommand.whois target) entropy =
      elim (resolve_member r (MemberRef.nickname target)) [
        | err e ↦ (r, err e)
        | ok m ↦ (r, ok (notify_host (HostNotice.whois_result (info m)) ∷ []))
      ]

-- The end of `on_connection_lost`: the connection is forgotten.
module _ {L : Type 0} where
  abbrev forget : RoomActor L → ConnectionId → RoomActor L
  forget r connection = record r { connections = (Connections.remove r.connections connection).0 }

  lost_taken :
      RoomActor L
      → ConnectionId
      → RequestId
      → List RoomAction
      → Queue.JoinRequestQueue × Queue.Result Queue.JoinRequest
      → Effect L (List RoomAction)
  lost_taken r connection id actions (requests, Queue.Result.ok q) = (
    forget (record r { requests = requests }) connection,
    ok (actions ++ notify_host (HostNotice.join_request_withdrawn id) ∷ []),
  )
  lost_taken r connection id actions (requests, Queue.Result.err e) =
      (forget (record r { requests = requests }) connection, ok actions)

  lost_stranger :
      RoomActor L → ConnectionId → List RoomAction → Option RequestId → Effect L (List RoomAction)
  unfolding lost_taken
  lost_stranger r connection actions none = (forget r connection, ok actions)
  lost_stranger r connection actions (some id) =
      lost_taken r connection id actions (Queue.take r.requests id)

module _ {L : Type 0} (env : Environment L) where
  after_lost :
      ConnectionId
      → MemberId
      → RoomActor L
      → List RoomAction × Option Member
      → Effect L (List RoomAction)
  after_lost connection id r (actions, none) = (forget r connection, ok actions)
  after_lost connection id r (actions, some m) =
      (forget r connection, ok (actions ++ notify_host (HostNotice.member_left id m.nickname) ∷ []))

  lost_member :
      RoomActor L
      → ConnectionId
      → List RoomAction
      → Entropy
      → Option MemberId
      → Effect L (List RoomAction)
  unfolding lost_stranger after_lost
  lost_member r connection actions entropy none =
      lost_stranger r connection actions (Connections.request_id r.connections connection)
  lost_member r connection actions entropy (some id) =
      and_then_room (remove_member env r id msg_member_left actions entropy)
        (after_lost connection id)

  unfoldable pub on_connection_lost :
      RoomActor L → ConnectionId → Entropy → Effect L (List RoomAction)
  unfolding lost_member
  on_connection_lost r connection entropy =
      if connection == r.host_connection
      then close_room r
      else (let withdrawn =
            map rejected_timeout (retain (timeout_of connection) r.timeout_requests) in
          let r' = record r {
            timeout_requests = retain (λ p. not (timeout_of connection p)) r.timeout_requests;
          } in
          let member_id =
            or_else (Connections.member_id r.connections connection)
              (option_map id_of (Member.by_connection r.members connection)) in
          lost_member r' connection withdrawn entropy member_id)
