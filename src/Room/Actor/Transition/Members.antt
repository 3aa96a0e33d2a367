-- ===== src/Room/Actor/Transition/Members.antt =====
-- The epoch transitions and the member table.
use veilroom.Prelude.{
  Bool-cases, Bytes, List, Option, [], arith, find, inl, inr, none, not, refl, retain, some, subst,
  sym, ℕ, ◌==◌, ◌∙◌, ◌∷◌, ◌≡◌, ◌≢◌, nat_eq, list_eq, pair_eq,
}
use veilroom.Event.{ConnectionId, MemberId}
use veilroom.Room.Action.{RoomAction}
use veilroom.Room.Environment.{Environment, Entropy}
use veilroom.Room.Member.{Member, MemberTable, by_id, has_id}
use veilroom.Room.Actor.{RoomActor, Result, ok, err, Effect, and_then_room, PendingEpoch}
use veilroom.Room.Actor.Broadcast.{queue_member_gone}
use veilroom.Room.Actor.Table.{Keeps}
use veilroom.Room.Actor.Transition.{
  close_room, activate, acknowledged, acknowledge, ack_from, ack_pending, on_epoch_ack, wrap_all,
  next_epoch, begin_wrapped, begin_with, begin_epoch_transition, without, remove_found,
  remove_member,
}

module _ {L : Type 0} where
  pub close_room-members : (r : RoomActor L) → (close_room r).0.members ≡ r.members
  unfolding close_room
  close_room-members r = ground arith

  acknowledged-members :
      (r : RoomActor L) (p : PendingEpoch) (ids : List MemberId)
      → (acknowledged r p ids).0.members ≡ r.members
  unfolding acknowledged activate
  acknowledged-members r p [] = refl
  acknowledged-members r p (id ∷ ids) = refl

  ack_from-members :
      (r : RoomActor L) (p : PendingEpoch) (id : Option MemberId)
      → (ack_from r p id).0.members ≡ r.members
  unfolding ack_from acknowledge
  ack_from-members r p none = refl
  ack_from-members r p (some id) =
      ground (arith, acknowledged-members r p (retain (λ i. not (i == id)) p.awaiting))

  ack_pending-members :
      (r : RoomActor L) (c : ConnectionId) (epoch : ℕ) (p : Option PendingEpoch)
      → (ack_pending r c epoch p).0.members ≡ r.members
  unfolding ack_pending
  ack_pending-members r c epoch none = refl
  ack_pending-members r c epoch (some p) = ground (arith, ack_from-members r p)

  pub on_epoch_ack-members :
      (r : RoomActor L) (c : ConnectionId) (epoch : ℕ)
      → (on_epoch_ack r c epoch).0.members ≡ r.members
  unfolding on_epoch_ack
  on_epoch_ack-members r c epoch = ack_pending-members r c epoch r.pending_epoch

module _ {L : Type 0} (env : Environment L) where
  begin_wrapped-members :
      (r : RoomActor L) (key : Bytes) (actions : List RoomAction)
      (w : Result (List RoomAction × List MemberId))
      → (begin_wrapped env r key actions w).0.members ≡ r.members
  unfolding begin_wrapped
  begin_wrapped-members r key actions (err e) = refl
  begin_wrapped-members r key actions (ok w) = refl

  begin_with-members :
      (r : RoomActor L) (actions : List RoomAction) (entropy : Entropy) (key : Option Bytes)
      → (begin_with env r actions entropy key).0.members ≡ r.members
  unfolding begin_with
  begin_with-members r actions entropy none = refl
  begin_with-members r actions entropy (some key) =
      begin_wrapped-members r key actions (wrap_all env r key entropy r.members.members)

  pub begin_epoch_transition-members :
      (r : RoomActor L) (actions : List RoomAction) (entropy : Entropy)
      → (begin_epoch_transition env r actions entropy).0.members ≡ r.members
  unfolding begin_epoch_transition next_epoch
  begin_epoch_transition-members r actions entropy =
      begin_with-members (next_epoch env r) actions entropy entropy.epoch_key

  -- A handler that goes on after a transition with the room it leaves, or a change of it that does not
  -- touch the table.
  pub and_then_room-members :
      {A B : Type 0} (p : Effect L A) (k : RoomActor L → A → Effect L B)
      → ((r : RoomActor L) (a : A) → (k r a).0.members ≡ r.members)
      → (and_then_room p k).0.members ≡ p.0.members
  and_then_room-members (r, err e) k h = refl
  and_then_room-members (r, ok a) k h = h r a

  pub queue_member_gone-members :
      (r : RoomActor L) (id : MemberId) (t : ℕ) → (queue_member_gone env r id t).members ≡ r.members
  unfolding queue_member_gone
  queue_member_gone-members r id t = refl

-- What the table lookup finds has the id asked for.
pub by_id-id :
    (t : MemberTable) (id : MemberId) (m : Member) → by_id t id ≡ some m → m.member_id ≡ id
unfolding by_id
by_id-id t id m h = found t.members h
  where
    found : (ms : List Member) → find (has_id id) ms ≡ some m → m.member_id ≡ id
    found [] e = absurd cc
    found (x ∷ ms) e = ground (arith, found ms)

module _ {L : Type 0} (env : Environment L) (P : MemberTable → Type 0) (t : MemberTable)
    (keeps : Keeps P t) where
  remove_found-Keeps :
      (r : RoomActor L) (id : MemberId) (event : ℕ) (actions : List RoomAction) (entropy : Entropy)
      (m : Option Member)
      → ((x : Member) → m ≡ some x → x.member_id ≢ 0)
      → P r.members
      → P (remove_found env r id event actions entropy m).0.members
  unfolding remove_found without
  remove_found-Keeps r id event actions entropy none h p = p
  remove_found-Keeps r id event actions entropy (some m) h p =
      subst P
        (sym (
          and_then_room-members env (begin_epoch_transition env (without env r m) actions entropy) _
            (λ r' a. queue_member_gone-members env r' id event)
          ∙ begin_epoch_transition-members env (without env r m) actions entropy))
        (keeps.removed r.members m.member_id (h m refl) p)

  pub remove_member-Keeps :
      (r : RoomActor L) (id : MemberId) (event : ℕ) (actions : List RoomAction) (entropy : Entropy)
      → P r.members
      → P (remove_member env r id event actions entropy).0.members
  unfolding remove_member
  remove_member-Keeps r id event actions entropy p = elim (Bool-cases (id == 0)) [
    | inl e ↦ rw e p
    | inr e ↦ rw e (
        remove_found-Keeps r id event actions entropy (by_id r.members id)
          (λ x f. ground (arith, by_id-id r.members id x f)) p)
  ]
