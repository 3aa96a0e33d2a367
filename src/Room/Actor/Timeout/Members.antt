-- ===== src/Room/Actor/Timeout/Members.antt =====
-- The deadline of a transition and the member table.
use veilroom.Prelude.{
  Bool-cases, List, Option, [], arith, contains, false, inl, inr, none, refl, some, subst, sym, ◌∙◌,
  ◌∷◌, ◌≡◌, ◌≢◌, nat_eq, list_eq, pair_eq,
}
use veilroom.Event.{MemberId}
use veilroom.Room.Action.{RoomAction}
use veilroom.Room.Environment.{Environment, Entropy}
use veilroom.Room.Member.{Member, MemberTable, by_id}
use veilroom.Room.Actor.{RoomActor, PendingEpoch}
use veilroom.Room.Actor.Broadcast.{queue_member_gone}
use veilroom.Room.Actor.Table.{Keeps}
use veilroom.Room.Actor.Transition.{without, begin_epoch_transition}
use veilroom.Room.Actor.Transition.Members.{
  by_id-id, close_room-members, and_then_room-members, begin_epoch_transition-members,
}
use veilroom.Room.Actor.Timeout.{
  evict_found, evict, queue_all_gone, time_out, timeout_pending, on_epoch_timeout,
}

module _ {L : Type 0} (env : Environment L) where
  queue_all_gone-members :
      (r : RoomActor L) (ids : List MemberId) → (queue_all_gone env r ids).members ≡ r.members
  unfolding queue_all_gone queue_member_gone
  queue_all_gone-members r [] = refl
  queue_all_gone-members r (id ∷ ids) = queue_all_gone-members (queue_member_gone env r id 0x21) ids

module _ {L : Type 0} (env : Environment L) (P : MemberTable → Type 0) (t : MemberTable)
    (keeps : Keeps P t) where
  evict_found-Keeps :
      (r : RoomActor L) (m : Option Member)
      (rest : RoomActor L → RoomActor L × List RoomAction × List MemberId)
      → ((x : Member) → m ≡ some x → x.member_id ≢ 0)
      → ((r' : RoomActor L) → P r'.members → P (rest r').0.members)
      → P r.members
      → P (evict_found env r m rest).0.members
  unfolding evict_found without
  evict_found-Keeps r none rest h k p = k r p
  evict_found-Keeps r (some m) rest h k p =
      k (without env r m) (keeps.removed r.members m.member_id (h m refl) p)

  evict-Keeps :
      (r : RoomActor L) (ids : List MemberId)
      → contains ids 0 ≡ false
      → P r.members
      → P (evict env r ids).0.members
  unfolding evict
  evict-Keeps r [] c p = p
  evict-Keeps r (id ∷ ids) c p =
      evict_found-Keeps r (by_id r.members id) (λ r'. evict env r' ids)
        (λ x f. ground (arith, by_id-id r.members id x f))
        (λ r' q. evict-Keeps r' ids (ground arith) q) p

  time_out-Keeps :
      (r : RoomActor L) (ids : List MemberId) (entropy : Entropy)
      → P r.members
      → P (time_out env r ids entropy).0.members
  unfolding time_out
  time_out-Keeps r ids entropy p = elim (Bool-cases (contains ids 0)) [
    | inl e ↦ rw e (subst P (sym (close_room-members r)) p)
    | inr e ↦
        let out = evict env r ids in
        rw e (
          subst P
            (sym (
              and_then_room-members env (begin_epoch_transition env out.0 out.1 entropy) _
                (λ r' a. queue_all_gone-members env r' out.2)
              ∙ begin_epoch_transition-members env out.0 out.1 entropy))
            (evict-Keeps r ids e p))
  ]

  timeout_pending-Keeps :
      (r : RoomActor L) (entropy : Entropy) (q : Option PendingEpoch)
      → P r.members
      → P (timeout_pending env r entropy q).0.members
  unfolding timeout_pending
  timeout_pending-Keeps r entropy none p = p
  timeout_pending-Keeps r entropy (some q) p =
      ground (arith, time_out-Keeps (record r { pending_epoch = none }) q.awaiting entropy p)

  pub on_epoch_timeout-Keeps :
      (r : RoomActor L) (entropy : Entropy)
      → P r.members
      → P (on_epoch_timeout env r entropy).0.members
  unfolding on_epoch_timeout
  on_epoch_timeout-Keeps r entropy p = timeout_pending-Keeps r entropy r.pending_epoch p
