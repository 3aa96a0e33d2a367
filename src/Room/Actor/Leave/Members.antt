-- ===== src/Room/Actor/Leave/Members.antt =====
-- Leaving, kicking and member commands, and the member table.
use veilroom.Prelude.{
  Bool-cases, List, Option, [], arith, inl, inr, none, refl, some, subst, sym, ℕ, ◌==◌, ◌≡◌, nat_eq,
  list_eq, pair_eq,
}
use veilroom.Event.{ConnectionId, MemberId, RequestId, MemberRef, MemberCommand}
use veilroom.Admission.Queue
use veilroom.Command.Color.{ColorChoice}
use veilroom.Room.Action.{RoomAction}
use veilroom.Room.Connections
use veilroom.Room.Environment.{Environment, Entropy}
use veilroom.Room.Member.{Member, MemberTable}
use veilroom.Room.Actor.{RoomActor, Result, ok, err}
use veilroom.Room.Actor.Table.{Keeps}
use veilroom.Room.Actor.Transition.{remove_member}
use veilroom.Room.Actor.Transition.Members.{
  remove_member-Keeps, close_room-members, and_then_room-members,
}
use veilroom.Room.Actor.Leave.{
  recolored, on_color, gone, after_gone, after_lost, leave_from, on_leave, kicked, kick_resolved,
  on_kick, on_member_left, on_member_command, lost_taken, lost_stranger, lost_member,
  on_connection_lost,
}

module _ {L : Type 0} where
  lost_stranger-members :
      (r : RoomActor L) (c : ConnectionId) (actions : List RoomAction) (id : Option RequestId)
      → (lost_stranger r c actions id).0.members ≡ r.members
  unfolding lost_stranger lost_taken
  lost_stranger-members r c actions none = refl
  lost_stranger-members r c actions (some id) = lost_taken-members (Queue.take r.requests id)
    where
      lost_taken-members :
          (p : Queue.JoinRequestQueue × Queue.Result Queue.JoinRequest)
          → (lost_taken r c id actions p).0.members ≡ r.members
      lost_taken-members (q, Queue.Result.ok x) = refl
      lost_taken-members (q, Queue.Result.err e) = refl

module _ {L : Type 0} (env : Environment L) (P : MemberTable → Type 0) (t : MemberTable)
    (keeps : Keeps P t) where
  recolored-Keeps :
      (r : RoomActor L) (c : ConnectionId) (color : ColorChoice) (id : Option MemberId)
      → P r.members
      → P (recolored r c color id).0.members
  unfolding recolored
  recolored-Keeps r c color none p = ground (arith, keeps.recolored r.members 0 color p)
  recolored-Keeps r c color (some id) p = keeps.recolored r.members id color p

  after_gone-members :
      (after : Member → List RoomAction) (r : RoomActor L) (out : List RoomAction × Option Member)
      → (after_gone env after r out).0.members ≡ r.members
  unfolding after_gone
  after_gone-members after r (actions, none) = refl
  after_gone-members after r (actions, some m) = refl

  after_lost-members :
      (c : ConnectionId) (id : MemberId) (r : RoomActor L) (out : List RoomAction × Option Member)
      → (after_lost env c id r out).0.members ≡ r.members
  unfolding after_lost
  after_lost-members c id r (actions, none) = refl
  after_lost-members c id r (actions, some m) = refl

  gone-Keeps :
      (r : RoomActor L) (id : MemberId) (event : ℕ) (entropy : Entropy)
      (after : Member → List RoomAction)
      → P r.members
      → P (gone env r id event entropy after).0.members
  unfolding gone
  gone-Keeps r id event entropy after p =
      subst P
        (sym (
          and_then_room-members env (remove_member env r id event [] entropy) (after_gone env after)
            (after_gone-members after)))
        (remove_member-Keeps env P t keeps r id event [] entropy p)

  leave_from-Keeps :
      (r : RoomActor L) (c : ConnectionId) (entropy : Entropy) (id : Option MemberId)
      → P r.members
      → P (leave_from env r c entropy id).0.members
  unfolding leave_from
  leave_from-Keeps r c entropy none p = p
  leave_from-Keeps r c entropy (some id) p = gone-Keeps r id _ entropy _ p

  kicked-Keeps :
      (r : RoomActor L) (entropy : Entropy) (target : MemberRef) (id : MemberId) (m : Option Member)
      → P r.members
      → P (kicked env r entropy target id m).0.members
  unfolding kicked
  kicked-Keeps r entropy target id none p = p
  kicked-Keeps r entropy target id (some m) p = elim (Bool-cases m.is_host) [
    | inl e ↦ rw e p
    | inr e ↦ rw e (gone-Keeps r id _ entropy _ p)
  ]

  kick_resolved-Keeps :
      (r : RoomActor L) (entropy : Entropy) (target : MemberRef) (m : Result Member)
      → P r.members
      → P (kick_resolved env r entropy target m).0.members
  unfolding kick_resolved
  kick_resolved-Keeps r entropy target (err e) p = p
  kick_resolved-Keeps r entropy target (ok m) p = kicked-Keeps r entropy target m.member_id _ p

  pub on_kick-Keeps :
      (r : RoomActor L) (target : MemberRef) (entropy : Entropy)
      → P r.members
      → P (on_kick env r target entropy).0.members
  unfolding on_kick
  on_kick-Keeps r target entropy p = kick_resolved-Keeps r entropy target _ p

  pub on_member_left-Keeps :
      (r : RoomActor L) (id : MemberId) (entropy : Entropy)
      → P r.members
      → P (on_member_left env r id entropy).0.members
  unfolding on_member_left
  on_member_left-Keeps r id entropy p = gone-Keeps r id _ entropy _ p

  pub on_member_command-Keeps :
      (r : RoomActor L) (c : ConnectionId) (command : MemberCommand) (entropy : Entropy)
      → P r.members
      → P (on_member_command env r c command entropy).0.members
  unfolding on_member_command on_leave on_color
  on_member_command-Keeps r c MemberCommand.leave entropy p =
      ground (arith, leave_from-Keeps r c entropy (Connections.member_id r.connections c) p)
  on_member_command-Keeps r c (MemberCommand.color x) entropy p = recolored-Keeps r c x _ p
  on_member_command-Keeps r c MemberCommand.list entropy p = p
  on_member_command-Keeps r c (MemberCommand.whois n) entropy p = ground arith

  lost_member-Keeps :
      (r : RoomActor L) (c : ConnectionId) (actions : List RoomAction) (entropy : Entropy)
      (id : Option MemberId)
      → P r.members
      → P (lost_member env r c actions entropy id).0.members
  unfolding lost_member
  lost_member-Keeps r c actions entropy none p =
      subst P (sym (lost_stranger-members r c actions _)) p
  lost_member-Keeps r c actions entropy (some id) p =
      subst P
        (sym (
          and_then_room-members env (remove_member env r id _ actions entropy) (after_lost env c id)
            (after_lost-members c id)))
        (remove_member-Keeps env P t keeps r id _ actions entropy p)

  pub on_connection_lost-Keeps :
      (r : RoomActor L) (c : ConnectionId) (entropy : Entropy)
      → P r.members
      → P (on_connection_lost env r c entropy).0.members
  unfolding on_connection_lost
  on_connection_lost-Keeps r c entropy p = elim (Bool-cases (c == r.host_connection)) [
    | inl e ↦ rw e (subst P (sym (close_room-members r)) p)
    | inr e ↦ rw e (lost_member-Keeps _ c _ entropy _ p)
  ]
