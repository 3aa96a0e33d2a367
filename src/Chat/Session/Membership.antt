-- ===== src/Chat/Session/Membership.antt =====
-- chat/session.rs: the signed events of the room, and the test of a snapshot.
use veilroom.Prelude.{
  Bool, Bytes, List, Option, Text, [], any, bool_eq, false, if◌then◌else◌, is_some, leb, length,
  ltb, map, none, not, retain, some, ℕ, ◌&&◌, ◌++◌, ◌==◌, ◌||◌, ◌∷◌, nat_eq, list_eq, pair_eq,
}
use veilroom.Command.Color
use veilroom.Command.Color.{from_index}
use veilroom.Crypto.Identity.{verify_ed25519}
use veilroom.Crypto.Primitives.{Primitives}
use veilroom.Crypto.Transcript.{
  SnapshotBodyMember, room_event_transcript, member_joined_body, member_gone_body, join_policy_body,
  member_snapshot_body,
}
use veilroom.Event.{MemberId}
use veilroom.Limits
use veilroom.Room.Action.{Message, Signed, SnapshotMember}
use veilroom.Validation.{validate_nickname}
use veilroom.Chat.Session.{
  ChatSession, ChatError, PlaintextError, Result, ok, err, bind, Effect, install_member,
  remove_member, install_snapshot, valid,
}

abbrev refuse : PlaintextError → Result (Unit {0})
refuse e = err (ChatError.invalid_plaintext e)

unfoldable pub is_replayed : Option ℕ → ℕ → Bool
is_replayed none sequence = false
is_replayed (some last) sequence = leb sequence last

-- After the signature and the epoch.
unfoldable pub in_order : ChatSession → ℕ → Effect (Unit {0})
unfolding is_replayed
in_order s sequence =
    if is_replayed s.last_room_sequence sequence
    then (s, err (ChatError.replay_rejected 0 sequence))
    else (record s { last_room_sequence = some sequence }, ok tt)

unfoldable pub in_epoch : ChatSession → Signed → Option (ℕ × Bytes) → Effect (Unit {0})
unfolding in_order
in_epoch s g none = in_order s g.sequence
in_epoch s g (some (current, key)) =
    if not (g.epoch == current)
    then (s, err (ChatError.old_epoch g.epoch current))
    else in_order s g.sequence

-- `?` after a call that changes the session.
abbrev pub then_session : Effect (Unit {0}) → (ChatSession → ChatSession) → Effect (Unit {0})
then_session (s, err x) f = (s, err x)
then_session (s, ok u) f = (f s, ok tt)

unfoldable pub same_identity : SnapshotMember → SnapshotMember → Bool
same_identity prior m =
    prior.member_id == m.member_id
    || prior.nickname == m.nickname
    || prior.ed25519_pubkey == m.ed25519_pubkey

unfoldable pub body_member : SnapshotMember → SnapshotBodyMember
body_member m = record {
  member_id = m.member_id;
  nickname = m.nickname;
  color_index = m.color;
  is_host = m.is_host;
  ed25519_pubkey = m.ed25519_pubkey;
}

unfoldable pub is_known : ChatSession → MemberId → Text → Bytes → Bool
is_known s member_id nickname ed25519_pubkey =
    any
      (λ m.
        m.member_id == member_id || m.nickname == nickname || m.ed25519_pubkey == ed25519_pubkey)
      s.members

module _ (p : Primitives) where
  unfoldable pub verify_room_event : ChatSession → Signed → ℕ → Bytes → Effect (Unit {0})
  unfolding in_epoch
  verify_room_event s g event_type body =
      let transcript =
        room_event_transcript 1 s.room_session_id g.sequence g.epoch event_type body in
      if not (verify_ed25519 p s.host_ed25519_pubkey transcript g.signature)
      then (s, err ChatError.invalid_signature)
      else in_epoch s g s.current_epoch

  unfoldable pub handle_member_gone : ChatSession → ℕ → Signed → MemberId → Effect (Unit {0})
  handle_member_gone s event_type g member_id =
      then_session (verify_room_event s g event_type (member_gone_body member_id))
        (λ s'. remove_member s' member_id)

module _ (nfc : Text → Text) (is_whitespace : ℕ → Bool) where
  -- The loop over the members, `prior` those before them.
  unfoldable pub check_members : List SnapshotMember → List SnapshotMember → Result (Unit {0})
  unfolding same_identity
  check_members prior [] = ok tt
  check_members prior (m ∷ ms) =
      let rest = check_members (prior ++ m ∷ []) ms in
      bind (valid (validate_nickname nfc is_whitespace m.nickname Limits.default)) (λ _.
        if not (is_some (from_index m.color))
        then err (ChatError.unknown_color m.color)
        else if any (λ q. same_identity q m) prior
        then refuse PlaintextError.snapshot_duplicates
        else rest)

  unfoldable pub validate_snapshot : List SnapshotMember → MemberId → Result (Unit {0})
  unfolding check_members
  validate_snapshot members own_id =
      if not (any (λ m. m.member_id == own_id) members)
      then refuse PlaintextError.snapshot_omits_self
      else if ltb Limits.default.max_active_members (length members)
      then refuse PlaintextError.snapshot_too_large
      else if not (length (retain (λ m. m.is_host && m.member_id == 0) members) == 1)
          || any (λ m. not (bool_eq m.is_host (m.member_id == 0))) members
      then refuse PlaintextError.snapshot_host
      else check_members [] members

  module _ (p : Primitives) where
    unfoldable pub joined :
        ChatSession → Signed → MemberId → Text → Bytes → Result (Unit {0}) → Effect (Unit {0})
    unfolding is_known
    joined s g member_id nickname ed25519_pubkey (err x) = (s, err x)
    joined s g member_id nickname ed25519_pubkey (ok u) =
        if member_id == 0 || is_known s member_id nickname ed25519_pubkey
        then (s, refuse PlaintextError.duplicate_member)
        else then_session
            (verify_room_event p s g 0x20 (member_joined_body member_id nickname ed25519_pubkey))
            (λ s'. install_member s' (record {
              member_id = member_id;
              nickname = nickname;
              color = Color.default;
              is_host = false;
              ed25519_pubkey = ed25519_pubkey;
            }))

    unfoldable pub handle_member_joined :
        ChatSession → Signed → MemberId → Text → Bytes → Effect (Unit {0})
    unfolding joined
    handle_member_joined s g member_id nickname ed25519_pubkey =
        joined s g member_id nickname ed25519_pubkey
          (valid (validate_nickname nfc is_whitespace nickname Limits.default))

    unfoldable pub snapshot :
        ChatSession → Signed → List SnapshotMember → Result (Unit {0}) → Effect (Unit {0})
    unfolding body_member
    snapshot s g members (err x) = (s, err x)
    snapshot s g members (ok u) =
        then_session (verify_room_event p s g 0x24 (member_snapshot_body (map body_member members)))
          (λ s'. install_snapshot s' members)

    unfoldable pub handle_member_snapshot :
        ChatSession → Signed → List SnapshotMember → Effect (Unit {0})
    unfolding snapshot
    handle_member_snapshot s g members =
        snapshot s g members (validate_snapshot members s.member_id)

    unfoldable pub handle_membership_message : ChatSession → Message → Effect (Unit {0})
    handle_membership_message s (Message.member_joined g member_id nickname ed25519_pubkey) =
        handle_member_joined s g member_id nickname ed25519_pubkey
    handle_membership_message s (Message.member_left g member_id) =
        handle_member_gone p s 0x21 g member_id
    handle_membership_message s (Message.member_kicked g member_id) =
        handle_member_gone p s 0x22 g member_id
    handle_membership_message s (Message.join_policy_changed g open_policy) =
        then_session (verify_room_event p s g 0x23 (join_policy_body open_policy))
          (λ s'. record s' { join_policy_open = open_policy })
    handle_membership_message s (Message.member_snapshot g members) =
        handle_member_snapshot s g members
    handle_membership_message s _ = (s, refuse PlaintextError.not_membership)
