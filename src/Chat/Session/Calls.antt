-- ===== src/Chat/Session/Calls.antt =====
-- A session under any sequence of calls.
use veilroom.Prelude.{
  Bool, Bytes, List, Option, Text, [], arith, as_bytes, refl, to_be_bytes, ℕ, ◌∷◌, ◌≡◌,
}
use veilroom.Chat.Session.Install.{
  recolor_member-IsTable, remove_member-IsTable, install_member-IsTable, recolor_member, IsFit,
}
use veilroom.Command.Color.{ColorChoice, as_index}
use veilroom.Chat.Replay.History.{Above}
use veilroom.Crypto.Identity.{Identity}
use veilroom.Crypto.Primitives.{Primitives}
use veilroom.Event.{EncryptedEnvelope, MemberId}
use veilroom.Room.Action.{SnapshotMember, Message}
use veilroom.Chat.Session.{
  remove_member, install_snapshot, install_member, MemberView, msg_timeout_changed,
  msg_timeout_request, msg_color, msg_chat, ChatSession, ok, err, Effect, new, install_epoch,
}
use veilroom.Chat.Session.Follow.{validate_snapshot-IsTable, handle_membership_message-IsTable}
use veilroom.Chat.Session.Keys.{EpochWrap, set_epoch_from_wrap}
use veilroom.Chat.Session.Membership.{validate_snapshot, handle_membership_message}
use veilroom.Chat.Session.Open.{
  receive_chat, receive_color, receive_timeout_request, receive_timeout_changed, open_message,
}
use veilroom.Chat.Session.Order.{Moves, sequence_of, handle_membership_message-Moves}
use veilroom.Chat.Session.Send.{
  setting_bytes, seal, send_chat, send_color, send_timeout_request, send_timeout_changed,
}
use veilroom.Chat.Session.Speech.{Speech, say, hear}
use veilroom.Chat.Session.Table.{IsTable}

-- What a session's owner does with it: it handles a signed event, installs an epoch from a wrap or with
-- a key at hand, hears a message, says something, and changes the table directly: it installs or
-- removes a member, installs a snapshot, or gives a known member another colour.
pub data Call : Type 0 where
  membership : Message → Call
  wrap : Identity → EpochWrap → Call
  install : ℕ → Bytes → Call
  hears : Message → Call
  says : Identity → Speech → Option Bytes → Call
  installs : MemberView → Call
  removes : MemberId → Call
  snapshots : List SnapshotMember → Call
  recolors : MemberId → ColorChoice → Call

-- The table and the sequence of the events are as before.
abbrev Untouched : ChatSession → ChatSession → Type 0
Untouched s t = (t.members ≡ s.members) × (t.last_room_sequence ≡ s.last_room_sequence)

module _ (nfc : Text → Text) (is_whitespace : ℕ → Bool) (p : Primitives) where
  abbrev pub step : ChatSession → Call → ChatSession
  step s (membership m) = (handle_membership_message nfc is_whitespace p s m).0
  step s (wrap identity w) = (set_epoch_from_wrap p s identity w).0
  step s (install epoch key) = install_epoch s epoch key
  step s (hears m) = (hear p s m).0
  step s (says identity speech drawn) = (say p s identity speech drawn).0
  step s (installs view) = install_member s view
  step s (removes id) = remove_member s id
  step s (snapshots members) = install_snapshot s members
  step s (recolors id c) = recolor_member s id c

  pub run : ChatSession → List Call → ChatSession
  run s [] = s
  run s (c ∷ cs) = run (step s c) cs

  -- What the owner owes for a direct change: an installed view fits the table, and an installed snapshot
  -- has been validated.
  abbrev pub Allowed : ChatSession → Call → Type 0
  Allowed s (installs view) = IsFit nfc is_whitespace s view
  Allowed s (snapshots members) = validate_snapshot nfc is_whitespace members s.member_id ≡ ok tt
  Allowed s _ = Unit

  abbrev pub AreAllowed : ChatSession → List Call → Type 0
  AreAllowed s [] = Unit
  AreAllowed s (c ∷ cs) = Allowed s c × AreAllowed (step s c) cs

  wrap-Untouched :
      (s : ChatSession) (identity : Identity) (w : EpochWrap)
      → Untouched s (set_epoch_from_wrap p s identity w).0
  unfolding set_epoch_from_wrap install_epoch
  wrap-Untouched s identity w = ground arith

  install-Untouched :
      (s : ChatSession) (epoch : ℕ) (key : Bytes) → Untouched s (install_epoch s epoch key)
  unfolding install_epoch
  install-Untouched s epoch key = ground arith

  open-Untouched :
      (s : ChatSession) (t : ℕ) (e : EncryptedEnvelope) → Untouched s (open_message p s t e).0
  unfolding open_message
  open-Untouched s t e = ground arith

  hear-Untouched : (s : ChatSession) (m : Message) → Untouched s (hear p s m).0
  unfolding receive_chat receive_color receive_timeout_request receive_timeout_changed
  hear-Untouched s (Message.chat_message e) = ground (arith, open-Untouched s msg_chat e)
  hear-Untouched s (Message.color_change e) = ground (arith, open-Untouched s msg_color e)
  hear-Untouched s (Message.timeout_request e) =
      ground (arith, open-Untouched s msg_timeout_request e)
  hear-Untouched s (Message.timeout_changed e) =
      ground (arith, open-Untouched s msg_timeout_changed e)
  hear-Untouched s _ = (refl, refl)

  seal-Untouched :
      (s : ChatSession) (identity : Identity) (t : ℕ) (m : Bytes) (drawn : Option Bytes)
      → Untouched s (seal p s identity t m drawn).0
  unfolding seal
  seal-Untouched s identity t m drawn = ground arith

  say-Untouched :
      (s : ChatSession) (identity : Identity) (speech : Speech) (drawn : Option Bytes)
      → Untouched s (say p s identity speech drawn).0
  unfolding send_chat send_color send_timeout_request send_timeout_changed
  say-Untouched s identity (Speech.chat t) drawn =
      ground (arith, seal-Untouched s identity msg_chat (as_bytes t) drawn)
  say-Untouched s identity (Speech.color c) drawn =
      ground (arith, seal-Untouched s identity msg_color (as_index c ∷ []) drawn)
  say-Untouched s identity (Speech.timeout_request seconds) drawn =
      ground (arith, seal-Untouched s identity msg_timeout_request (to_be_bytes 8 seconds) drawn)
  say-Untouched s identity (Speech.timeout_changed interval) drawn =
      ground (arith, seal-Untouched s identity msg_timeout_changed (setting_bytes interval) drawn)

  step-IsTable :
      (s : ChatSession) (c : Call)
      → IsTable nfc is_whitespace s.members
      → Allowed s c
      → IsTable nfc is_whitespace (step s c).members
  unfolding install_snapshot
  step-IsTable s (membership m) t h = handle_membership_message-IsTable nfc is_whitespace p s m t
  step-IsTable s (wrap identity w) t h = rw ((wrap-Untouched s identity w).0) t
  step-IsTable s (install epoch key) t h = rw ((install-Untouched s epoch key).0) t
  step-IsTable s (hears m) t h = rw ((hear-Untouched s m).0) t
  step-IsTable s (says identity speech drawn) t h = rw ((say-Untouched s identity speech drawn).0) t
  step-IsTable s (installs view) t h = install_member-IsTable nfc is_whitespace s view t h
  step-IsTable s (removes id) t h = remove_member-IsTable nfc is_whitespace s id t
  step-IsTable s (snapshots members) t h =
      validate_snapshot-IsTable nfc is_whitespace members s.member_id h
  step-IsTable s (recolors id c) t h = recolor_member-IsTable nfc is_whitespace s id c t

  run-IsTable :
      (s : ChatSession) (cs : List Call)
      → IsTable nfc is_whitespace s.members
      → AreAllowed s cs
      → IsTable nfc is_whitespace (run s cs).members
  unfolding run
  run-IsTable s [] t h = t
  run-IsTable s (c ∷ cs) t (first, rest) = run-IsTable (step s c) cs (step-IsTable s c t first) rest

  -- A new session, the host's or a member's, is put through any sequence of its operations: broadcasts of
  -- the host, epoch wraps and keys, messages received and sent whatever they hold, a known member set
  -- to another colour, a member removed, and, where its owner changes the table directly, a snapshot
  -- that `validate_snapshot` accepts and a member with a valid nickname, with the host flag exactly if
  -- its id is 0, and with a nickname and a key that no other known id has. Then the members that it
  -- knows have pairwise different ids, nicknames and keys and valid nicknames, and the host flag is set
  -- on member 0 and on no other.
  pub run-new-IsTable :
      (room_session_id host_ed25519_pubkey host_x25519_pubkey : Bytes) (member_id : MemberId)
      (cs : List Call)
      → AreAllowed (new room_session_id host_ed25519_pubkey host_x25519_pubkey member_id) cs
      → IsTable nfc is_whitespace
          (run (new room_session_id host_ed25519_pubkey host_x25519_pubkey member_id) cs).members
  unfolding new
  run-new-IsTable room ed x id cs h =
      run-IsTable (new room ed x id) cs (record { apart = tt; proper = tt }) h

  -- The sequence of a membership message that is handled, before those handled later.
  abbrev with_handled : Effect (Unit {0}) → ℕ → List ℕ → List ℕ
  with_handled (s, ok u) q later = q ∷ later
  with_handled (s, err x) q later = later

  abbrev handled_one : ChatSession → Call → List ℕ → List ℕ
  handled_one s (membership m) later =
      with_handled (handle_membership_message nfc is_whitespace p s m) (sequence_of m) later
  handled_one s _ later = later

  -- The sequences of the membership messages that a session handles, in order.
  pub handled : ChatSession → List Call → List ℕ
  handled s [] = []
  handled s (c ∷ cs) = handled_one s c (handled (step s c) cs)

  with_handled-Above :
      (s : ChatSession) (q : ℕ) (r : Effect (Unit {0})) (later : List ℕ)
      → Moves s q r
      → Above r.0.last_room_sequence later
      → Above s.last_room_sequence (with_handled r q later)
  with_handled-Above s q (t, ok u) later (fresh, last) h = (fresh, rw last at h)
  with_handled-Above s q (t, err x) later m h = rw m at h

  install_member-sequence :
      (s : ChatSession) (view : MemberView)
      → (install_member s view).last_room_sequence ≡ s.last_room_sequence
  unfolding install_member
  install_member-sequence s view = ground arith

  recolor_member-sequence :
      (s : ChatSession) (id : MemberId) (c : ColorChoice)
      → (recolor_member s id c).last_room_sequence ≡ s.last_room_sequence
  unfolding recolor_member install_member
  recolor_member-sequence s id c = ground arith

  handled_one-Above :
      (s : ChatSession) (c : Call) (later : List ℕ)
      → Above (step s c).last_room_sequence later
      → Above s.last_room_sequence (handled_one s c later)
  unfolding remove_member install_snapshot
  handled_one-Above s (membership m) later h =
      with_handled-Above s (sequence_of m) (handle_membership_message nfc is_whitespace p s m) later
        (handle_membership_message-Moves nfc is_whitespace p s m) h
  handled_one-Above s (wrap identity w) later h = rw ((wrap-Untouched s identity w).1) at h
  handled_one-Above s (install epoch key) later h = rw ((install-Untouched s epoch key).1) at h
  handled_one-Above s (hears m) later h = rw ((hear-Untouched s m).1) at h
  handled_one-Above s (says identity speech drawn) later h =
      rw ((say-Untouched s identity speech drawn).1) at h
  handled_one-Above s (installs view) later h = rw (install_member-sequence s view) at h
  handled_one-Above s (removes id) later h = h
  handled_one-Above s (snapshots members) later h = h
  handled_one-Above s (recolors id c) later h = rw (recolor_member-sequence s id c) at h

  -- In any history of calls, the membership messages that a session handles carry strictly increasing
  -- sequences, above that of the last one handled before: none is followed twice or out of order,
  -- whatever else happens in between.
  pub handled-Above : (s : ChatSession) (cs : List Call) → Above s.last_room_sequence (handled s cs)
  unfolding handled
  handled-Above s [] = tt
  handled-Above s (c ∷ cs) =
      handled_one-Above s c (handled (step s c) cs) (handled-Above (step s c) cs)
