-- ===== src/Room/Actor/Admit/Closed.antt =====
-- Rotating the invitation and locking the room end every admission that is under way.
use veilroom.Prelude.{
  All-contains, List, [], ap, map, refl, strip, strip-All, ◌∙◌, ◌∷◌, ◌≡◌, nat_eq, list_eq, pair_eq,
}
use veilroom.Event.{ConnectionId}
use veilroom.Admission.{JoinPolicy, allows_join_requests}
use veilroom.Admission.Queue.{JoinApplication}
use veilroom.Admission.Queue
use veilroom.Protocol.State.{RoomState}
use veilroom.Room.Connections.{non_member_ids}
use veilroom.Room.Connections
use veilroom.Room.Connections.NonMembers.{non_members-remove}
use veilroom.Room.Environment.{Environment}
use veilroom.Room.Actor.{RoomActor, RoomError, err}
use veilroom.Room.Actor.Admit.{
  remove_all, close_admission, on_join_requested, admission_closed, set_policy,
}

non_member_ids-remove_all :
    (known : Connections.Connections) (ids : List ConnectionId)
    → non_member_ids (remove_all known ids) ≡ strip (non_member_ids known) ids
unfolding remove_all
non_member_ids-remove_all known [] = refl
non_member_ids-remove_all known (id ∷ ids) =
    non_member_ids-remove_all (Connections.remove known id).0 ids
    ∙ ap (λ xs. strip xs ids) (non_members-remove known id)

-- No connection of a stranger is left, and no pending application.
pub record IsClosed {L : Type 0} (r : RoomActor L) : Type 0 where
  pub strangers : non_member_ids r.connections ≡ []
  pub applications : r.requests.requests ≡ []

close_admission-IsClosed : {L : Type 0} (r : RoomActor L) → IsClosed (close_admission r).0
unfolding close_admission Queue.drain
close_admission-IsClosed r =
    let known = remove_all r.connections (map (λ q. q.connection) r.requests.requests) in
    let others = non_member_ids known in
    record {
      strangers =
          non_member_ids-remove_all known others ∙ strip-All others others (All-contains others);
      applications = refl;
    }

module _ {L : Type 0} (env : Environment L) where
  -- Locking the room leaves no connection that is not a member's and no pending application, and an
  -- application to the room that this leaves, from whatever connection, is refused with no change.
  pub set_policy_locked :
      (r : RoomActor L) (c : ConnectionId) (a : JoinApplication)
      → let r' = (set_policy env r JoinPolicy.locked).0 in
        IsClosed r'
        × (r'.state ≡ RoomState.locked)
        × (on_join_requested r' c a ≡ (r', err RoomError.policy_locked))
  unfolding set_policy admission_closed on_join_requested allows_join_requests
  set_policy_locked r c a =
      let closed = close_admission-IsClosed r in
      (record { strangers = closed.strangers; applications = closed.applications }, refl, refl)
