-- ===== src/Room/Actor/Decide/Members.antt =====
-- The host's decisions and the member table.
use veilroom.Prelude.{Option, none, refl, some, subst, succ64, sym, ◌∙◌, ◌≡◌}
use veilroom.Event.{ConnectionId, RequestId}
use veilroom.Admission.Queue.{JoinRequest, QueueError}
use veilroom.Admission.Queue
use veilroom.Room.Environment.{Environment, Entropy}
use veilroom.Room.Member.{Member, MemberTable, add}
use veilroom.Room.Member
use veilroom.Room.Actor.{RoomActor, PendingTimeoutRequest}
use veilroom.Room.Actor.Table.{Keeps}
use veilroom.Room.Actor.Transition.{begin_epoch_transition}
use veilroom.Room.Actor.Transition.Members.{begin_epoch_transition-members, and_then_room-members}
use veilroom.Room.Actor.Broadcast.{queue_member_joined, queue_member_snapshot}
use veilroom.Room.Actor.Decide.{
  admitted, refused, admit, accept_taken, accept_found, on_accept, timeout_requests_without,
  reject_taken, reject_found, on_reject,
}

module _ {L : Type 0} where
  reject_taken-members :
      (r : RoomActor L) (p : Queue.JoinRequestQueue × Queue.Result JoinRequest)
      → (reject_taken r p).0.members ≡ r.members
  unfolding reject_taken
  reject_taken-members r (q, Queue.Result.err (QueueError.unknown id)) = refl
  reject_taken-members r (q, Queue.Result.err (QueueError.full n)) = refl
  reject_taken-members r (q, Queue.Result.ok x) = refl

  reject_found-members :
      (r : RoomActor L) (id : RequestId) (p : Option PendingTimeoutRequest)
      → (reject_found r id p).0.members ≡ r.members
  unfolding reject_found timeout_requests_without
  reject_found-members r id none = reject_taken-members r (Queue.take r.requests id)
  reject_found-members r id (some p) = refl

  pub on_reject-members :
      (r : RoomActor L) (id : RequestId) → (on_reject r id).0.members ≡ r.members
  unfolding on_reject
  on_reject-members r id = reject_found-members r id _

module _ {L : Type 0} (env : Environment L) where
  admit-members :
      (r : RoomActor L) (c : ConnectionId) (entropy : Entropy)
      (p : MemberTable × Member.Result Member)
      → (admit env r c entropy p).0.members ≡ p.0
  unfolding admit admitted refused queue_member_joined queue_member_snapshot
  admit-members r c entropy (t, Member.Result.ok m) =
      and_then_room-members env (begin_epoch_transition env _ _ entropy) _ (λ r' a. refl)
      ∙ begin_epoch_transition-members env _ _ entropy
  admit-members r c entropy (t, Member.Result.err e) = refl

module _ {L : Type 0} (env : Environment L) (P : MemberTable → Type 0) where
  accept_taken-Keeps :
      (r : RoomActor L) (entropy : Entropy) (p : Queue.JoinRequestQueue × Queue.Result JoinRequest)
      → Keeps P r.members
      → P (accept_taken env r entropy p).0.members
  unfolding accept_taken
  accept_taken-Keeps r entropy (q, Queue.Result.err (QueueError.unknown id)) k = k.now
  accept_taken-Keeps r entropy (q, Queue.Result.err (QueueError.full n)) k = k.now
  accept_taken-Keeps r entropy (q, Queue.Result.ok x) k =
      subst P (sym (admit-members env (record r { requests = q }) x.connection entropy _)) (
        k.added x.connection x.application.nickname x.application.ed25519_pubkey
          x.application.x25519_pubkey (succ64 r.epoch))

  accept_found-Keeps :
      (r : RoomActor L) (id : RequestId) (entropy : Entropy) (p : Option PendingTimeoutRequest)
      → Keeps P r.members
      → P (accept_found env r id entropy p).0.members
  unfolding accept_found timeout_requests_without
  accept_found-Keeps r id entropy none k = accept_taken-Keeps r entropy (Queue.take r.requests id) k
  accept_found-Keeps r id entropy (some p) k = k.now

  pub on_accept-Keeps :
      (r : RoomActor L) (id : RequestId) (entropy : Entropy)
      → Keeps P r.members
      → P (on_accept env r id entropy).0.members
  unfolding on_accept
  on_accept-Keeps r id entropy k = accept_found-Keeps r id entropy _ k
