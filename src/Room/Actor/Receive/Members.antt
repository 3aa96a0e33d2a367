-- ===== src/Room/Actor/Receive/Members.antt =====
-- A received message and the member table.
use veilroom.Prelude.{
  Bool, Bytes, List, Option, arith, false, get_or, if-both, none, refl, some, subst, sym, true, ℕ,
  ◌==◌, ◌≡◌, nat_eq, list_eq, pair_eq,
}
use veilroom.Event.{ConnectionId, MemberId, EncryptedEnvelope}
use veilroom.Room.Action.{RoomAction}
use veilroom.Room.Connections
use veilroom.Room.Environment.{Environment, Entropy}
use veilroom.Room.Member.{Member, MemberTable}
use veilroom.Room.Actor.{RoomActor, Result, ok, err, Effect}
use veilroom.Room.Actor.Table.{Keeps}
use veilroom.Room.Actor.Transition.{remove_member}
use veilroom.Room.Actor.Transition.Members.{remove_member-Keeps, and_then_room-members}
use veilroom.Prelude.HashMap
use veilroom.Room.Actor.Relay.{rate_limit_termination}
use veilroom.Room.Actor.Relay.Members.{
  relay_color-Keeps, timeout_requested-members, timeout_changed-members, chat_text-members,
}
use veilroom.Room.Actor.Receive.{
  by_type, open_and_relay, check_and_relay, after_kick, over_limit, with_limiter, limited,
  limit_and_relay, received_from, on_chat_received, chat_plaintext,
}

module _ {L : Type 0} (env : Environment L) (P : MemberTable → Type 0) (t : MemberTable)
    (keeps : Keeps P t) where
  abbrev Q : Effect L (List RoomAction) → Type 0
  Q out = P out.0.members

  by_type-Keeps :
      (r : RoomActor L) (c : ConnectionId) (mt : ℕ) (e : EncryptedEnvelope) (plaintext : Bytes)
      → P r.members
      → P (by_type env r c mt e plaintext).0.members
  unfolding by_type
  by_type-Keeps r c mt e plaintext p =
      if-both Q (mt == 0x41) (relay_color-Keeps P t keeps r c e _ p) (
        if-both Q (mt == 0x42) (subst P (sym (timeout_requested-members r c e.sender_id _)) p) (
          if-both Q (mt == 0x43) (subst P (sym (timeout_changed-members r c e _)) p)
            (subst P (sym (chat_text-members r c e _)) p)))

  open_and_relay-Keeps :
      (r : RoomActor L) (c : ConnectionId) (mt : ℕ) (e : EncryptedEnvelope) (o : Result Bytes)
      → P r.members
      → P (open_and_relay env r c mt e o).0.members
  unfolding open_and_relay
  open_and_relay-Keeps r c mt e (err x) p = p
  open_and_relay-Keeps r c mt e (ok plaintext) p = by_type-Keeps _ c mt e plaintext p

  check_and_relay-Keeps :
      (r : RoomActor L) (c : ConnectionId) (mt : ℕ) (e : EncryptedEnvelope)
      → P r.members
      → P (check_and_relay env r c mt e).0.members
  unfolding check_and_relay
  check_and_relay-Keeps r c mt e p =
      ground (arith, open_and_relay-Keeps r c mt e (chat_plaintext env r e.sender_id mt e) p)

  after_kick-members :
      (c : ConnectionId) (id : MemberId) (r : RoomActor L) (out : List RoomAction × Option Member)
      → (after_kick env c id r out).0.members ≡ r.members
  unfolding after_kick
  after_kick-members c id r (actions, none) = refl
  after_kick-members c id r (actions, some m) = refl

  over_limit-Keeps :
      (r : RoomActor L) (c : ConnectionId) (id : MemberId) (abusive : Bool) (entropy : Entropy)
      → P r.members
      → P (over_limit env r c id abusive entropy).0.members
  unfolding over_limit
  over_limit-Keeps r c id false entropy p = p
  over_limit-Keeps r c id true entropy p =
      subst P
        (sym (
          and_then_room-members env (remove_member env r id _ _ entropy) (after_kick env c id)
            (after_kick-members c id)))
        (remove_member-Keeps env P t keeps r id _ _ entropy p)

  limited-Keeps :
      (r : RoomActor L) (c : ConnectionId) (mt : ℕ) (e : EncryptedEnvelope) (entropy : Entropy)
      (l : L × Bool)
      → P r.members
      → P (limited env r c mt e entropy l).0.members
  unfolding limited
  limited-Keeps r c mt e entropy (l, true) p =
      check_and_relay-Keeps (with_limiter env r e.sender_id l) c mt e p
  limited-Keeps r c mt e entropy (l, false) p =
      over_limit-Keeps (with_limiter env r e.sender_id l) c e.sender_id
        (env.is_abusive l rate_limit_termination) entropy p

  limit_and_relay-Keeps :
      (r : RoomActor L) (c : ConnectionId) (mt : ℕ) (e : EncryptedEnvelope) (entropy : Entropy)
      → P r.members
      → P (limit_and_relay env r c mt e entropy).0.members
  unfolding limit_and_relay
  limit_and_relay-Keeps r c mt e entropy p = ground (
    arith,
    check_and_relay-Keeps r c mt e p,
    limited-Keeps r c mt e entropy
        (env.allow (get_or (HashMap.get e.sender_id r.rate_limits) (env.new_limiter 5 1)) r.now) p,
  )

  received_from-Keeps :
      (r : RoomActor L) (c : ConnectionId) (mt : ℕ) (e : EncryptedEnvelope) (entropy : Entropy)
      (id : Option MemberId)
      → P r.members
      → P (received_from env r c mt e entropy id).0.members
  unfolding received_from
  received_from-Keeps r c mt e entropy none p = p
  received_from-Keeps r c mt e entropy (some id) p =
      ground (arith, limit_and_relay-Keeps r c mt e entropy p)

  pub on_chat_received-Keeps :
      (r : RoomActor L) (c : ConnectionId) (mt : ℕ) (e : EncryptedEnvelope) (entropy : Entropy)
      → P r.members
      → P (on_chat_received env r c mt e entropy).0.members
  unfolding on_chat_received
  on_chat_received-Keeps r c mt e entropy p =
      ground (arith, received_from-Keeps r c mt e entropy (Connections.member_id r.connections c) p)
