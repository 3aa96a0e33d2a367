-- ===== src/Chat/Session/Follow.antt =====
-- A session's table of members stays a valid one, whatever messages come in.
use mathlib.Core.List.{map-append}
use veilroom.Prelude.{
  Bool, Bool-cases, Bytes, List, Text, [], any, append-nil, append_assoc, arith, bool_eq, false,
  inl, inr, map, not, refl, subst, true, ℕ, ◌++◌, ◌==◌, ◌||◌, ◌∙◌, ◌∷◌, ◌≡◌, nat_eq, list_eq,
  pair_eq,
}
use veilroom.Crypto.Transcript.{
  member_snapshot_body, member_joined_body, member_gone_body, join_policy_body,
}
use veilroom.Command.Color
use veilroom.Crypto.Primitives.{Primitives}
use veilroom.Event.{MemberId}
use veilroom.Limits
use veilroom.Room.Action.{Message, Signed, SnapshotMember}
use veilroom.Validation.{validate_nickname}
use veilroom.Chat.Session.{
  ChatSession, MemberView, Result, ok, err, Effect, install_member, remove_member, install_snapshot,
  view_of, valid,
}
use veilroom.Chat.Session.Table.{clashes, IsProper, IsTable, IsTable-snoc, IsTable-retain}
use veilroom.Chat.Session.Membership.{
  body_member, same_identity, is_known, joined, snapshot, check_members, validate_snapshot,
  verify_room_event, then_session, handle_member_joined, handle_member_gone, handle_member_snapshot,
  handle_membership_message,
}

clashes-view_of : (q m : SnapshotMember) → clashes (view_of q) (view_of m) ≡ same_identity q m
unfolding view_of same_identity
clashes-view_of q m = refl

any-view_of :
    (m : SnapshotMember) (ms : List SnapshotMember)
    → any (λ q. clashes q (view_of m)) (map view_of ms) ≡ any (λ q. same_identity q m) ms
any-view_of m [] = refl
any-view_of m (q ∷ ms) = rw (clashes-view_of q m, any-view_of m ms) refl

all-not :
    (p : SnapshotMember → Bool) (m : SnapshotMember) (ms : List SnapshotMember)
    → any p (m ∷ ms) ≡ false
    → (p m ≡ false) × (any p ms ≡ false)
all-not p m ms h = (ground arith, ground arith)

any-weaken :
    (p test : MemberView → Bool) (ms : List MemberView)
    → any test ms ≡ false
    → ((q : MemberView) → test q ≡ false → p q ≡ false)
    → any p ms ≡ false
any-weaken p test [] h w = refl
any-weaken p test (q ∷ ms) h w = ground (arith, w q, any-weaken p test ms)

bool_eq→eq : (a b : Bool) → bool_eq a b ≡ true → a ≡ b
bool_eq→eq true true h = refl
bool_eq→eq true false h = cc
bool_eq→eq false true h = cc
bool_eq→eq false false h = refl

abbrev wrong_flag : SnapshotMember → Bool
wrong_flag m = not (bool_eq m.is_host (m.member_id == 0))

module _ (nfc : Text → Text) (is_whitespace : ℕ → Bool) where
  abbrev Table : List MemberView → Type 0
  Table ms = IsTable nfc is_whitespace ms

  -- What the loop has checked when it goes on.
  check_members-cons :
      (prior : List SnapshotMember) (m : SnapshotMember) (ms : List SnapshotMember)
      → check_members nfc is_whitespace prior (m ∷ ms) ≡ ok tt
      → (valid (validate_nickname nfc is_whitespace m.nickname Limits.default) ≡ ok tt)
        × (any (λ q. same_identity q m) prior ≡ false)
        × (check_members nfc is_whitespace (prior ++ m ∷ []) ms ≡ ok tt)
  unfolding check_members
  check_members-cons prior m ms h = (ground arith, ground arith, ground arith)

  check_members-IsTable :
      (prior ms : List SnapshotMember)
      → Table (map view_of prior)
      → any wrong_flag ms ≡ false
      → check_members nfc is_whitespace prior ms ≡ ok tt
      → Table (map view_of (prior ++ ms))
  unfolding view_of
  check_members-IsTable prior [] t flags h = rw append-nil t
  check_members-IsTable prior (m ∷ ms) t flags h =
      let (named, fresh, rest) = check_members-cons prior m ms h in
      let (flag, more) = all-not wrong_flag m ms flags in
      let proper : IsProper nfc is_whitespace (view_of m) =
        (named, bool_eq→eq m.is_host (m.member_id == 0) (ground arith)) in
      let t' =
        IsTable-snoc nfc is_whitespace (map view_of prior) (view_of m) t
          (any-view_of m prior ∙ fresh) proper in
      let before : Table (map view_of (prior ++ m ∷ [])) =
        rw (map-append view_of prior (m ∷ [])) t' in
      subst (λ l. Table (map view_of l)) (append_assoc prior (m ∷ []) ms)
        (check_members-IsTable (prior ++ m ∷ []) ms before more rest)

  pub validate_snapshot-IsTable :
      (ms : List SnapshotMember) (own_id : MemberId)
      → validate_snapshot nfc is_whitespace ms own_id ≡ ok tt
      → Table (map view_of ms)
  unfolding validate_snapshot
  validate_snapshot-IsTable ms own_id h =
      check_members-IsTable [] ms (record { apart = tt; proper = tt }) (ground arith) (ground arith)

  module _ (p : Primitives) where
    verify_room_event-members :
        (s : ChatSession) (g : Signed) (event_type : ℕ) (body : Bytes)
        → (verify_room_event p s g event_type body).0.members ≡ s.members
    unfolding verify_room_event
    verify_room_event-members s g event_type body = ground arith

    -- A change that keeps the table after the event was verified keeps it through the whole handler.
    then_session-IsTable :
        (ms : List MemberView) (r : Effect (Unit {0})) (f : ChatSession → ChatSession)
        → Table ms
        → r.0.members ≡ ms
        → ((s : ChatSession) → s.members ≡ ms → Table (f s).members)
        → Table (then_session r f).0.members
    then_session-IsTable ms (s, err x) f t h k = rw h t
    then_session-IsTable ms (s, ok u) f t h k = k s h

    install_member-IsTable :
        (s : ChatSession) (v : MemberView)
        → Table s.members
        → IsProper nfc is_whitespace v
        → is_known s v.member_id v.nickname v.ed25519_pubkey ≡ false
        → Table (install_member s v).members
    unfolding install_member is_known
    install_member-IsTable s v t proper fresh =
        rw
          (any-weaken (λ q. q.member_id == v.member_id) (λ q. clashes q v) s.members fresh
            (λ q h. ground arith))
          (IsTable-snoc nfc is_whitespace s.members v t fresh proper)

    joined-IsTable :
        (s : ChatSession) (g : Signed) (id : MemberId) (name : Text) (key : Bytes)
        (r : Result (Unit {0}))
        → valid (validate_nickname nfc is_whitespace name Limits.default) ≡ r
        → Table s.members
        → Table (joined nfc is_whitespace p s g id name key r).0.members
    unfolding joined is_known
    joined-IsTable s g id name key (err x) h t = t
    joined-IsTable s g id name key (ok tt) h t =
        elim (Bool-cases (id == 0 || is_known s id name key)) [
          | inl old ↦ rw old t
          | inr new ↦
              let v : MemberView = record {
                member_id = id;
                nickname = name;
                color = Color.default;
                is_host = false;
                ed25519_pubkey = key;
              } in
              let proper : IsProper nfc is_whitespace v = (h, ground arith) in
              rw new (
                then_session-IsTable s.members
                  (verify_room_event p s g 0x20 (member_joined_body id name key))
                  (λ s'. install_member s' v) t
                  (verify_room_event-members s g 0x20 (member_joined_body id name key))
                  (λ s' same.
                    install_member-IsTable s' v (rw same t) proper (rw same (ground arith))))
        ]

    handle_member_gone-IsTable :
        (s : ChatSession) (event_type : ℕ) (g : Signed) (id : MemberId)
        → Table s.members
        → Table (handle_member_gone p s event_type g id).0.members
    unfolding handle_member_gone remove_member
    handle_member_gone-IsTable s event_type g id t =
        then_session-IsTable s.members (verify_room_event p s g event_type (member_gone_body id))
          (λ s'. remove_member s' id) t
          (verify_room_event-members s g event_type (member_gone_body id))
          (λ s' same.
            rw same (IsTable-retain nfc is_whitespace (λ m. not (m.member_id == id)) s.members t))

    snapshot-IsTable :
        (s : ChatSession) (g : Signed) (ms : List SnapshotMember) (r : Result (Unit {0}))
        → validate_snapshot nfc is_whitespace ms s.member_id ≡ r
        → Table s.members
        → Table (snapshot nfc is_whitespace p s g ms r).0.members
    unfolding snapshot install_snapshot
    snapshot-IsTable s g ms (err x) h t = t
    snapshot-IsTable s g ms (ok tt) h t =
        then_session-IsTable s.members
          (verify_room_event p s g 0x24 (member_snapshot_body (map body_member ms)))
          (λ s'. install_snapshot s' ms) t
          (verify_room_event-members s g 0x24 (member_snapshot_body (map body_member ms)))
          (λ s' same. validate_snapshot-IsTable ms s.member_id h)

    pub handle_membership_message-IsTable :
        (s : ChatSession) (message : Message)
        → Table s.members
        → Table (handle_membership_message nfc is_whitespace p s message).0.members
    unfolding handle_membership_message handle_member_joined handle_member_snapshot
    handle_membership_message-IsTable s (Message.member_joined g id name key) t =
        joined-IsTable s g id name key _ refl t
    handle_membership_message-IsTable s (Message.member_left g id) t =
        handle_member_gone-IsTable s 0x21 g id t
    handle_membership_message-IsTable s (Message.member_kicked g id) t =
        handle_member_gone-IsTable s 0x22 g id t
    handle_membership_message-IsTable s (Message.join_policy_changed g is_open) t =
        then_session-IsTable s.members (verify_room_event p s g 0x23 (join_policy_body is_open))
          (λ s'. record s' { join_policy_open = is_open }) t
          (verify_room_event-members s g 0x23 (join_policy_body is_open)) (λ s' same. rw same t)
    handle_membership_message-IsTable s (Message.member_snapshot g ms) t =
        snapshot-IsTable s g ms _ refl t
    handle_membership_message-IsTable s _ t = t
