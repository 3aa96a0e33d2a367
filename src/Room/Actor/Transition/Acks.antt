-- ===== src/Room/Actor/Transition/Acks.antt =====
-- An epoch becomes active exactly when every member that it waits for has acknowledged it.
use veilroom.Prelude.{
  Bool-cases, List, Option, [], ap, beq_self, inl, inr, length, nat_eq, none, refl, some, strip,
  strip-nil, subst, sym, without_one, without_one-length, ℕ, ◌==◌, ◌∙◌, ◌∷◌, ◌≡◌, ◌≢◌, list_eq,
  pair_eq,
}
use veilroom.Event.{ConnectionId, MemberId}
use veilroom.Room.Connections
use veilroom.Room.Actor.{RoomActor, PendingEpoch}
use veilroom.Room.Actor.Transition.{
  activate, acknowledged, acknowledge, ack_from, ack_pending, on_epoch_ack, state_of,
}

-- The members that the connections belong to.
abbrev pub sender : Option MemberId → List MemberId → List MemberId
sender none ids = ids
sender (some id) ids = id ∷ ids

abbrev pub senders : Connections.Connections → List ConnectionId → List MemberId
senders known [] = []
senders known (c ∷ cs) = sender (Connections.member_id known c) (senders known cs)

module _ {L : Type 0} where
  -- Acknowledgements of one epoch, in the order of their arrival.
  pub ack_all : RoomActor L → ℕ → List ConnectionId → RoomActor L
  ack_all r epoch [] = r
  ack_all r epoch (c ∷ cs) = ack_all (on_epoch_ack r c epoch).0 epoch cs

  -- A room before and after acknowledgements that leave some members to wait for.
  abbrev pub Acked : PendingEpoch → RoomActor L → List MemberId → RoomActor L → Type 0
  Acked p r [] r' =
      (r'.pending_epoch ≡ none) × (r'.epoch_key ≡ some p.key) × (r'.state ≡ state_of r.policy)
  Acked p r (id ∷ ids) r' =
      (r'.pending_epoch ≡ some (record p { awaiting = id ∷ ids }))
      × (r'.epoch_key ≡ r.epoch_key)
      × (r'.state ≡ r.state)

  ack_all-none :
      (r : RoomActor L) (epoch : ℕ) (cs : List ConnectionId)
      → r.pending_epoch ≡ none
      → ack_all r epoch cs ≡ r
  unfolding ack_all on_epoch_ack
  ack_all-none r epoch [] h = refl
  ack_all-none r epoch (c ∷ cs) h =
      let one : (ack_pending r c epoch r.pending_epoch).0 ≡ r = rw h refl in
      ap (λ r'. ack_all r' epoch cs) one ∙ ack_all-none r epoch cs h

  Acked-refl :
      (p : PendingEpoch) (r : RoomActor L) (ids : List MemberId)
      → r.pending_epoch ≡ some p
      → p.awaiting ≡ ids
      → p.awaiting ≢ []
      → Acked p r ids r
  Acked-refl p r [] h e n = absurd (n e)
  Acked-refl p r (id ∷ ids) h e n = (h ∙ ap (λ a. some (record p { awaiting = a })) e, refl, refl)

  -- What is left to prove after one acknowledgement, with the rest of them as an induction hypothesis.
  acknowledged-Acked :
      (r : RoomActor L) (p : PendingEpoch) (left : List MemberId) (cs : List ConnectionId)
      → ((r' : RoomActor L) (q : PendingEpoch)
          → r'.pending_epoch ≡ some q
          → q.awaiting ≢ []
          → Acked q r' (strip q.awaiting (senders r'.connections cs)) (ack_all r' q.epoch cs))
      → Acked p r
          (strip left (senders r.connections cs))
          (ack_all (acknowledged r p left).0 p.epoch cs)
  unfolding acknowledged activate
  acknowledged-Acked r p [] cs ih =
      let r' = (activate r p).0 in
      subst (λ ids. Acked p r ids (ack_all r' p.epoch cs))
        (sym (strip-nil (senders r.connections cs)))
        (subst (Acked p r []) (sym (ack_all-none r' p.epoch cs refl)) (refl, refl, refl))
  acknowledged-Acked r p (id ∷ ids) cs ih =
      let q = record p { awaiting = id ∷ ids } in
      let r' = record r { pending_epoch = some q } in
      same (strip (id ∷ ids) (senders r.connections cs)) (ack_all r' q.epoch cs)
        (ih r' q refl (λ h. cc))
    where
      same :
          (left : List MemberId) (out : RoomActor L)
          → Acked
              (record p { awaiting = id ∷ ids })
              (record r { pending_epoch = some (record p { awaiting = id ∷ ids }) })
              left
              out
          → Acked p r left out
      same [] out a = a
      same (i ∷ is) out a = a

  ack_from-Acked :
      (r : RoomActor L) (p : PendingEpoch) (m : Option MemberId) (cs : List ConnectionId)
      → r.pending_epoch ≡ some p
      → p.awaiting ≢ []
      → ((r' : RoomActor L) (q : PendingEpoch)
          → r'.pending_epoch ≡ some q
          → q.awaiting ≢ []
          → Acked q r' (strip q.awaiting (senders r'.connections cs)) (ack_all r' q.epoch cs))
      → Acked p r
          (strip p.awaiting (sender m (senders r.connections cs)))
          (ack_all (ack_from r p m).0 p.epoch cs)
  unfolding ack_from acknowledge
  ack_from-Acked r p none cs h n ih = ih r p h n
  ack_from-Acked r p (some id) cs h n ih =
      let left = without_one id p.awaiting in
      elim (Bool-cases (length left == length p.awaiting)) [
        | inl e ↦
            let same =
              without_one-length id p.awaiting
                ((nat_eq.eq_iff (length left) (length p.awaiting)).0 e) in
            rw e (
              subst (λ a. Acked p r (strip a (senders r.connections cs)) (ack_all r p.epoch cs))
                (sym same) (ih r p h n))
        | inr e ↦ rw e (acknowledged-Acked r p left cs ih)
      ]

  on_epoch_ack-from :
      (r : RoomActor L) (p : PendingEpoch) (c : ConnectionId)
      → r.pending_epoch ≡ some p
      → on_epoch_ack r c p.epoch ≡ ack_from r p (Connections.member_id r.connections c)
  unfolding on_epoch_ack ack_pending
  on_epoch_ack-from r p c h = rw (h, beq_self p.epoch) refl

  -- While a transition waits for some members, acknowledgements of its epoch, in any order, repeated
  -- or from connections that are nobody's, leave it waiting for the members that sent none, with the
  -- state and the active key as they were; once all of them have, its key is the active one, nothing
  -- is pending, and the room is open or locked as its policy says.
  pub ack_all-Acked :
      (r : RoomActor L) (p : PendingEpoch) (cs : List ConnectionId)
      → r.pending_epoch ≡ some p
      → p.awaiting ≢ []
      → Acked p r (strip p.awaiting (senders r.connections cs)) (ack_all r p.epoch cs)
  unfolding ack_all
  ack_all-Acked r p [] h n = Acked-refl p r p.awaiting h refl n
  ack_all-Acked r p (c ∷ cs) h n =
      let m = Connections.member_id r.connections c in
      subst
        (λ out.
          Acked p r (strip p.awaiting (sender m (senders r.connections cs)))
            (ack_all out.0 p.epoch cs))
        (sym (on_epoch_ack-from r p c h))
        (ack_from-Acked r p m cs h n (λ r' q. ack_all-Acked r' q cs))
