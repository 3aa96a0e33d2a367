-- ===== src/Room/Actor/Admit/Members.antt =====
-- Join requests and the invitation leave the member table alone.
use veilroom.Prelude.{
  Bool, Bytes, Option, arith, false, none, refl, some, true, ◌≡◌, nat_eq, list_eq, pair_eq,
}
use veilroom.Event.{ConnectionId, RequestId}
use veilroom.Admission.{JoinPolicy}
use veilroom.Admission.Queue.{JoinApplication}
use veilroom.Admission.Queue
use veilroom.Room.Connections.{ConnectionEntry}
use veilroom.Room.Connections
use veilroom.Room.Environment.{Environment, Entropy}
use veilroom.Room.Actor.{RoomActor}
use veilroom.Room.Actor.Admit.{
  close_admission, attached, pushed, join_known, on_join_requested, rotate, on_new_id,
  admission_closed, set_policy,
}

module _ {L : Type 0} where
  pushed-members :
      (r : RoomActor L) (c : ConnectionId) (a : JoinApplication)
      (p : Queue.JoinRequestQueue × Queue.Result RequestId)
      → (pushed r c a p).0.members ≡ r.members
  unfolding pushed attached
  pushed-members r c a (q, Queue.Result.err e) = refl
  pushed-members r c a (q, Queue.Result.ok id) =
      attached-members (Connections.attach_request r.connections c id)
    where
      attached-members :
          (p : Connections.Connections × Bool)
          → (attached (record r { requests = q }) c a id p).0.members ≡ r.members
      attached-members (cs, true) = refl
      attached-members (cs, false) = refl

  join_known-members :
      (r : RoomActor L) (c : ConnectionId) (a : JoinApplication) (e : Option ConnectionEntry)
      → (join_known r c a e).0.members ≡ r.members
  unfolding join_known
  join_known-members r c a none = refl
  join_known-members r c a (some e) =
      ground (arith, pushed-members r c a (Queue.push r.requests c a))

  pub on_join_requested-members :
      (r : RoomActor L) (c : ConnectionId) (a : JoinApplication)
      → (on_join_requested r c a).0.members ≡ r.members
  unfolding on_join_requested
  on_join_requested-members r c a =
      ground (arith, join_known-members r c a (Connections.get r.connections c))

module _ {L : Type 0} (env : Environment L) where
  rotate-members :
      (r : RoomActor L) (token : Option Bytes) → (rotate env r token).0.members ≡ r.members
  unfolding rotate close_admission
  rotate-members r none = refl
  rotate-members r (some t) = refl

  pub on_new_id-members :
      (r : RoomActor L) (entropy : Entropy) → (on_new_id env r entropy).0.members ≡ r.members
  unfolding on_new_id
  on_new_id-members r entropy = rotate-members r entropy.token

  pub set_policy-members :
      (r : RoomActor L) (p : JoinPolicy) → (set_policy env r p).0.members ≡ r.members
  unfolding set_policy admission_closed close_admission
  set_policy-members r JoinPolicy.open_joins = refl
  set_policy-members r JoinPolicy.locked = refl
