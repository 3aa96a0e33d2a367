-- ===== src/Room/Actor/Transition/Rekey.antt =====
-- The key of the epoch after a removal.
use veilroom.Prelude.{
  All, Bool-cases, List, Option, [], ap, arith, contains, false, inl, inr, nat_eq, none, refl,
  remove_first, some, subst, true, ℕ, ◌==◌, ◌∷◌, ◌≡◌, list_eq, pair_eq,
}
use veilroom.Event.{MemberId}
use veilroom.Room.Action.{RoomAction}
use veilroom.Room.Environment.{Environment, Entropy}
use veilroom.Room.Member.{Member, by_id, remove, has_id}
use veilroom.Room.Member.Unique.{IsValid, Unique, Differs}
use veilroom.Room.Actor.{RoomActor, ok, err, Effect, and_then_room}
use veilroom.Room.Actor.Broadcast.{queue_member_gone}
use veilroom.Room.Actor.Transition.{without, remove_found, remove_member, begin_epoch_transition}
use veilroom.Room.Actor.Transition.Members.{by_id-id}
use veilroom.Room.Actor.Transition.Begin.{Began, member_ids, begin_epoch_transition-Began}

contains-Differs :
    (m : Member) (ms : List Member)
    → All (Differs m) ms
    → contains (member_ids ms) m.member_id ≡ false
contains-Differs m [] d = refl
contains-Differs m (x ∷ ms) d =
    ground (arith, d.0.ids, nat_eq.eq_iff x.member_id m.member_id, contains-Differs m ms)

-- In a table of different members a removed id is no longer among the ids.
removed_id :
    (id : MemberId) (ms : List Member)
    → Unique ms
    → contains (member_ids (remove_first (has_id id) ms)) id ≡ false
removed_id id [] u = refl
removed_id id (m ∷ ms) u = elim (Bool-cases (has_id id m)) [
  | inl e ↦
      let same = (nat_eq.eq_iff m.member_id id).0 e in
      rw e (subst (λ i. contains (member_ids ms) i ≡ false) same (contains-Differs m ms u.0))
  | inr e ↦ rw (e, e) (removed_id id ms u.1)
]

abbrev first_of : {L A B : Type 0} → Effect L (A × B) → Effect L A
first_of (r, ok (a, b)) = (r, ok a)
first_of (r, err e) = (r, err e)

-- The room whose members are those without the removed one.
abbrev pub remaining_room : {L : Type 0} → RoomActor L → MemberId → RoomActor L
remaining_room r id = record r { members = (remove r.members id).0 }

module _ {L : Type 0} (env : Environment L) where
  gone_after :
      MemberId
      → ℕ
      → Member
      → RoomActor L
      → List RoomAction
      → Effect L (List RoomAction × Option Member)
  gone_after id event x b a = (queue_member_gone env b id event, ok (a, some x))

  Began-gone :
      (before : RoomActor L) (actions : List RoomAction) (entropy : Entropy)
      (p : Effect L (List RoomAction)) (id : MemberId) (event : ℕ) (x m : Member) (r' : RoomActor L)
      (out : List RoomAction)
      → Began env before actions entropy p
      → and_then_room p (gone_after id event x) ≡ (r', ok (out, some m))
      → Began env before actions entropy (r', ok out)
  unfolding queue_member_gone gone_after
  Began-gone before actions entropy (b, err e) id event x m r' out began h = absurd cc
  Began-gone before actions entropy (b, ok a) id event x m r' out began h =
      subst (Began env before actions entropy) (ap first_of h) began

  remove_found-Began :
      (r : RoomActor L) (id : MemberId) (event : ℕ) (actions : List RoomAction) (entropy : Entropy)
      (o : Option Member) (m : Member) (r' : RoomActor L) (out : List RoomAction)
      → ((x : Member) → o ≡ some x → x.member_id ≡ id)
      → remove_found env r id event actions entropy o ≡ (r', ok (out, some m))
      → Began env (remaining_room r id) actions entropy (r', ok out)
  unfolding remove_found without gone_after
  remove_found-Began r id event actions entropy none m r' out f h = absurd cc
  remove_found-Began r id event actions entropy (some x) m r' out f h =
      let before = without env r x in
      subst (λ i. Began env (remaining_room r i) actions entropy (r', ok out)) (f x refl)
        (Began-gone before actions entropy (begin_epoch_transition env before actions entropy) id
          event x m r' out (begin_epoch_transition-Began env before actions entropy) h)

  -- Once a member was removed from a room whose members are all different, a transition has begun: the
  -- key that the generator gave is pending, each remaining member, in order, is sent this key as
  -- `wrap_epoch_key` wraps it under the wrapping key that the host derives for this member, for the new
  -- epoch, the room waits for exactly these members, and the removed id is not among them.
  pub remove_member_rekeys :
      (r : RoomActor L) (id : MemberId) (event : ℕ) (actions : List RoomAction) (entropy : Entropy)
      (m : Member) (r' : RoomActor L) (out : List RoomAction)
      → IsValid r.members
      → remove_member env r id event actions entropy ≡ (r', ok (out, some m))
      → Began env (remaining_room r id) actions entropy (r', ok out)
        × (contains (member_ids (remaining_room r id).members.members) id ≡ false)
  unfolding remove_member remove
  remove_member_rekeys r id event actions entropy m r' out v h = elim (Bool-cases (id == 0)) [
    | inl e ↦ absurd (refused e)
    | inr e ↦ (
      remove_found-Began r id event actions entropy (by_id r.members id) m r' out
          (λ x f. by_id-id r.members id x f) (found e),
      removed_id id r.members.members v.unique,
    )
  ]
    where
      refused : (id == 0) ≡ true → ⊥
      refused e = ground arith

      found :
          (id == 0) ≡ false
          → remove_found env r id event actions entropy (by_id r.members id)
            ≡ (r', ok (out, some m))
      found e = ground arith
