-- ===== src/Chat/Session/Order.antt =====
-- The order in which a session follows the signed events of its room.
use veilroom.Prelude.{
  Bool, Bool-cases, Bytes, List, Option, Text, arith, false, if-both, inl, inr, map, none, not,
  refl, some, true, ℕ, ◌==◌, ◌||◌, ◌∙◌, ◌≡◌, nat_eq, list_eq, pair_eq,
}
use veilroom.Chat.Replay.{is_new}
use veilroom.Command.Color
use veilroom.Crypto.Transcript.{
  room_event_transcript, member_joined_body, member_gone_body, member_snapshot_body,
  join_policy_body,
}
use veilroom.Crypto.Identity.{verify_ed25519}
use veilroom.Crypto.Primitives.{Primitives}
use veilroom.Event.{MemberId}
use veilroom.Room.Action.{Message, Signed, SnapshotMember}
use veilroom.Chat.Session.{
  MemberView, ChatSession, Result, ok, err, Effect, install_member, remove_member, install_snapshot,
}
use veilroom.Chat.Session.Membership.{
  is_replayed, in_order, in_epoch, body_member, is_known, joined, snapshot, verify_room_event,
  then_session, handle_member_joined, handle_member_gone, handle_member_snapshot,
  handle_membership_message,
}

-- A handled event is newer than the last one and becomes it; a refused one changes nothing.
abbrev pub Moves : ChatSession → ℕ → Effect (Unit {0}) → Type 0
Moves s sequence (s', ok u) =
    (is_new s.last_room_sequence sequence ≡ true) × (s'.last_room_sequence ≡ some sequence)
Moves s sequence (s', err x) = s' ≡ s

-- The sequence that a membership message carries.
abbrev pub sequence_of : Message → ℕ
sequence_of (Message.member_joined g id name key) = g.sequence
sequence_of (Message.member_left g id) = g.sequence
sequence_of (Message.member_kicked g id) = g.sequence
sequence_of (Message.join_policy_changed g is_open) = g.sequence
sequence_of (Message.member_snapshot g members) = g.sequence
sequence_of _ = 0

then_session-Moves :
    (s : ChatSession) (q : ℕ) (r : Effect (Unit {0})) (f : ChatSession → ChatSession)
    → ((t : ChatSession) → (f t).last_room_sequence ≡ t.last_room_sequence)
    → Moves s q r
    → Moves s q (then_session r f)
then_session-Moves s q (s', err x) f keeps m = m
then_session-Moves s q (s', ok u) f keeps (fresh, last) = (fresh, keeps s' ∙ last)

is_new-is_replayed : (last : Option ℕ) (q : ℕ) → is_replayed last q ≡ false → is_new last q ≡ true
unfolding is_replayed
is_new-is_replayed none q h = refl
is_new-is_replayed (some last) q h = ground arith

in_order-Moves : (s : ChatSession) (q : ℕ) → Moves s q (in_order s q)
unfolding in_order
in_order-Moves s q = elim (Bool-cases (is_replayed s.last_room_sequence q)) [
  | inl old ↦ rw old refl
  | inr fresh ↦ rw fresh (is_new-is_replayed s.last_room_sequence q fresh, refl)
]

in_epoch-Moves :
    (s : ChatSession) (g : Signed) (current : Option (ℕ × Bytes))
    → Moves s g.sequence (in_epoch s g current)
unfolding in_epoch
in_epoch-Moves s g none = in_order-Moves s g.sequence
in_epoch-Moves s g (some (epoch, key)) =
    if-both (Moves s g.sequence) (not (g.epoch == epoch)) refl (in_order-Moves s g.sequence)

module _ (p : Primitives) where
  verify_room_event-Moves :
      (s : ChatSession) (g : Signed) (event_type : ℕ) (body : Bytes)
      → Moves s g.sequence (verify_room_event p s g event_type body)
  unfolding verify_room_event
  verify_room_event-Moves s g event_type body =
      let transcript =
        room_event_transcript 1 s.room_session_id g.sequence g.epoch event_type body in
      if-both (Moves s g.sequence)
        (not (verify_ed25519 p s.host_ed25519_pubkey transcript g.signature)) refl
        (in_epoch-Moves s g s.current_epoch)

  handle_member_gone-Moves :
      (s : ChatSession) (event_type : ℕ) (g : Signed) (id : MemberId)
      → Moves s g.sequence (handle_member_gone p s event_type g id)
  unfolding handle_member_gone remove_member
  handle_member_gone-Moves s event_type g id =
      then_session-Moves s g.sequence (verify_room_event p s g event_type (member_gone_body id))
        (λ t. remove_member t id) (λ t. refl)
        (verify_room_event-Moves s g event_type (member_gone_body id))

install_member-last_room_sequence :
    (s : ChatSession) (v : MemberView)
    → (install_member s v).last_room_sequence ≡ s.last_room_sequence
unfolding install_member
install_member-last_room_sequence s v = ground arith

module _ (nfc : Text → Text) (is_whitespace : ℕ → Bool) (p : Primitives) where
  joined-Moves :
      (s : ChatSession) (g : Signed) (id : MemberId) (name : Text) (key : Bytes)
      (r : Result (Unit {0}))
      → Moves s g.sequence (joined nfc is_whitespace p s g id name key r)
  unfolding joined
  joined-Moves s g id name key (err x) = refl
  joined-Moves s g id name key (ok u) =
      if-both (Moves s g.sequence) (id == 0 || is_known s id name key) refl (
        then_session-Moves s g.sequence
          (verify_room_event p s g 0x20 (member_joined_body id name key))
          (λ t. install_member t (record {
            member_id = id;
            nickname = name;
            color = Color.default;
            is_host = false;
            ed25519_pubkey = key;
          }))
          (λ t. install_member-last_room_sequence t _)
          (verify_room_event-Moves p s g 0x20 (member_joined_body id name key)))

  snapshot-Moves :
      (s : ChatSession) (g : Signed) (ms : List SnapshotMember) (r : Result (Unit {0}))
      → Moves s g.sequence (snapshot nfc is_whitespace p s g ms r)
  unfolding snapshot install_snapshot
  snapshot-Moves s g ms (err x) = refl
  snapshot-Moves s g ms (ok u) =
      let body = member_snapshot_body (map body_member ms) in
      then_session-Moves s g.sequence (verify_room_event p s g 0x24 body)
        (λ t. install_snapshot t ms) (λ t. refl) (verify_room_event-Moves p s g 0x24 body)

  -- A membership message is either handled, and then its sequence is newer than that of the last handled
  -- one and becomes the last, or it is refused, whatever the reason, and the session does not change.
  pub handle_membership_message-Moves :
      (s : ChatSession) (message : Message)
      → Moves s (sequence_of message) (handle_membership_message nfc is_whitespace p s message)
  unfolding handle_membership_message handle_member_joined handle_member_snapshot
  handle_membership_message-Moves s (Message.member_joined g id name key) =
      joined-Moves s g id name key _
  handle_membership_message-Moves s (Message.member_left g id) =
      handle_member_gone-Moves p s 0x21 g id
  handle_membership_message-Moves s (Message.member_kicked g id) =
      handle_member_gone-Moves p s 0x22 g id
  handle_membership_message-Moves s (Message.join_policy_changed g is_open) =
      then_session-Moves s g.sequence (verify_room_event p s g 0x23 (join_policy_body is_open))
        (λ t. record t { join_policy_open = is_open }) (λ t. refl)
        (verify_room_event-Moves p s g 0x23 (join_policy_body is_open))
  handle_membership_message-Moves s (Message.member_snapshot g ms) = snapshot-Moves s g ms _
  handle_membership_message-Moves s _ = refl
