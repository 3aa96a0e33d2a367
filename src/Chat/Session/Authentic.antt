-- ===== src/Chat/Session/Authentic.antt =====
-- What it takes for an envelope to be opened, and that no envelope is opened twice.
use veilroom.Prelude.{
  Bytes, Option-cases, ap, arith, inl, inr, nat_eq, refl, some, sym, true, ℕ, ◌∙◌, ◌≡◌, ◌≤◌,
}
use veilroom.Chat.Replay.{accept, last_accepted, is_new}
use veilroom.Chat.Replay.History.{accept-refines}
use veilroom.Crypto.Envelope.{Opened, open_envelope, chat_aad, open_envelope-plaintext}
use veilroom.Crypto.Identity.{verify_ed25519}
use veilroom.Crypto.Primitives.{Primitives}
use veilroom.Crypto.Transcript.{chat_transcript}
use veilroom.Event.{EncryptedEnvelope}
use veilroom.Chat.Session.{Effect, ChatSession, ChatError, MemberView, ok, err, member}
use veilroom.Chat.Session.Open.{open_message}

-- The session after it has accepted a message of a sender and an epoch.
abbrev pub after_accept : ChatSession → EncryptedEnvelope → ChatSession
after_accept s e = record s { replay = (accept s.replay e.sender_id e.epoch e.sender_sequence).0 }

module _ (p : Primitives) where
  opened_as : ChatSession → ℕ → EncryptedEnvelope → Bytes → MemberView → Opened
  opened_as s message_type e key sender =
      open_envelope p 1 s.room_session_id e.epoch e.sender_id e.sender_sequence message_type key
        sender.ed25519_pubkey e.nonce e.ciphertext e.signature

  -- The tests that an opened envelope has passed.
  record Passed (s : ChatSession) (message_type : ℕ) (e : EncryptedEnvelope) (m : Bytes)
      : Type 0 where
    key : Bytes
    sender : MemberView
    current : s.current_epoch ≡ some (e.epoch, key)
    known : member s e.sender_id ≡ some sender
    is_newer : is_new (last_accepted s.replay e.sender_id e.epoch) e.sender_sequence ≡ true
    opens : opened_as s message_type e key sender ≡ Opened.plaintext m
    accepted : (open_message p s message_type e).0 ≡ after_accept s e

  open_message-Passed :
      (s : ChatSession) (message_type : ℕ) (e : EncryptedEnvelope) (m : Bytes)
      → (open_message p s message_type e).1 ≡ ok m
      → Passed s message_type e m
  unfolding open_message opened_as
  open_message-Passed s message_type e m h = elim (Option-cases s.current_epoch) [
    | inl no_key ↦ absurd (ground arith)
    | inr ((epoch, key), current) ↦ elim (Option-cases (member s e.sender_id)) [
      | inl unknown ↦ absurd (ground arith)
      | inr (sender, known) ↦ record {
        key = key;
        sender = sender;
        current = ground (arith, nat_eq.eq_iff e.epoch epoch);
        known = known;
        is_newer = ground (arith, nat_eq.eq_iff e.epoch epoch);
        opens = ground (arith, nat_eq.eq_iff e.epoch epoch);
        accepted = ground (arith, nat_eq.eq_iff e.epoch epoch);
      }
    ]
  ]

  -- What is not newer than the last accepted sequence is refused with no change.
  open_message-replayed :
      (s : ChatSession) (message_type : ℕ) (e : EncryptedEnvelope) (key : Bytes)
      (sender : MemberView) (last : ℕ)
      → s.current_epoch ≡ some (e.epoch, key)
      → member s e.sender_id ≡ some sender
      → last_accepted s.replay e.sender_id e.epoch ≡ some last
      → e.sender_sequence ≤ last
      → open_message p s message_type e
        ≡ (s, err (ChatError.replay_rejected e.sender_id e.sender_sequence))
  unfolding open_message
  open_message-replayed s message_type e key sender last current known heard old =
      ground (arith, nat_eq.eq_iff e.epoch e.epoch)

  last_accepted-after_accept :
      (s : ChatSession) (e : EncryptedEnvelope)
      → is_new (last_accepted s.replay e.sender_id e.epoch) e.sender_sequence ≡ true
      → last_accepted (after_accept s e).replay e.sender_id e.epoch ≡ some e.sender_sequence
  last_accepted-after_accept s e h = ground (
    arith,
    accept-refines s.replay e.sender_id e.epoch e.sender_sequence e.sender_id e.epoch,
    nat_eq.eq_iff e.sender_id e.sender_id,
    nat_eq.eq_iff e.epoch e.epoch,
  )

  -- The evidence behind an opened envelope.
  pub record IsAuthentic (s : ChatSession) (message_type : ℕ) (e : EncryptedEnvelope) (m : Bytes)
      : Type 0 where
    pub key : Bytes
    pub sender : MemberView
    pub current : s.current_epoch ≡ some (e.epoch, key)
    pub known : member s e.sender_id ≡ some sender
    pub is_newer : is_new (last_accepted s.replay e.sender_id e.epoch) e.sender_sequence ≡ true
    pub verified :
        verify_ed25519 p sender.ed25519_pubkey
          (chat_transcript 1 s.room_session_id e.epoch e.sender_id e.sender_sequence message_type
            e.nonce e.ciphertext)
          e.signature
        ≡ true
    pub decrypted :
        p.decrypt key e.nonce
          (chat_aad 1 s.room_session_id e.epoch e.sender_id e.sender_sequence message_type)
          e.ciphertext
        ≡ some m

  -- An opened envelope has its evidence, and the session records the sequence; a refusal changes nothing.
  abbrev pub Verdict : ChatSession → ℕ → EncryptedEnvelope → Effect Bytes → Type 0
  Verdict s message_type e (s', ok m) = IsAuthentic s message_type e m × (s' ≡ after_accept s e)
  Verdict s message_type e (s', err x) = s' ≡ s

  Passed-IsAuthentic :
      (s : ChatSession) (message_type : ℕ) (e : EncryptedEnvelope) (m : Bytes)
      → Passed s message_type e m
      → IsAuthentic s message_type e m
  unfolding opened_as
  Passed-IsAuthentic s message_type e m t =
      let (verified, decrypted) =
        open_envelope-plaintext p 1 s.room_session_id e.epoch e.sender_id e.sender_sequence
          message_type t.key t.sender.ed25519_pubkey e.nonce e.ciphertext e.signature t.opens in
      record {
        key = t.key;
        sender = t.sender;
        current = t.current;
        known = t.known;
        is_newer = t.is_newer;
        verified = verified;
        decrypted = decrypted;
      }

  open_message-refused :
      (s : ChatSession) (message_type : ℕ) (e : EncryptedEnvelope) (x : ChatError)
      → (open_message p s message_type e).1 ≡ err x
      → (open_message p s message_type e).0 ≡ s
  unfolding open_message
  open_message-refused s message_type e x h = ground arith

  verdict :
      (s : ChatSession) (message_type : ℕ) (e : EncryptedEnvelope) (r : Effect Bytes)
      → open_message p s message_type e ≡ r
      → Verdict s message_type e r
  verdict s message_type e (s', ok m) h =
      let t = open_message-Passed s message_type e m (ap (λ r. r.1) h) in
      (Passed-IsAuthentic s message_type e m t, sym (ap (λ r. r.0) h) ∙ t.accepted)
  verdict s message_type e (s', err x) h =
      sym (ap (λ r. r.0) h) ∙ open_message-refused s message_type e x (ap (λ r. r.1) h)

  -- An envelope is opened to a plaintext only in the current epoch, for a sender that is a known member,
  -- with a sequence newer than the last accepted one, when the signature on exactly this envelope and
  -- message type verifies under that member's key and the ciphertext authenticates as this plaintext.
  -- The session then records the sequence and changes in nothing else; when an envelope is refused, the
  -- session does not change.
  pub open_message-Verdict :
      (s : ChatSession) (message_type : ℕ) (e : EncryptedEnvelope)
      → Verdict s message_type e (open_message p s message_type e)
  open_message-Verdict s message_type e =
      verdict s message_type e (open_message p s message_type e) refl

  -- Once an envelope was opened, every envelope of the same sender and epoch whose sequence is not
  -- larger is refused as a replay, whatever its message type, and the session does not change.
  pub open_message_once :
      (s : ChatSession) (message_type : ℕ) (e : EncryptedEnvelope) (m : Bytes)
      → (open_message p s message_type e).1 ≡ ok m
      → (message_type' : ℕ) (e' : EncryptedEnvelope) → e'.sender_id ≡ e.sender_id
      → e'.epoch ≡ e.epoch
      → e'.sender_sequence ≤ e.sender_sequence
      → let s' = (open_message p s message_type e).0 in
        open_message p s' message_type' e'
        ≡ (s', err (ChatError.replay_rejected e'.sender_id e'.sender_sequence))
  unfolding member
  open_message_once s message_type e m h message_type' e' hs he hq =
      let t = open_message-Passed s message_type e m h in
      let s' = after_accept s e in
      let heard : last_accepted s'.replay e'.sender_id e'.epoch ≡ some e.sender_sequence =
        rw (hs, he) (last_accepted-after_accept s e t.is_newer) in
      let current : s'.current_epoch ≡ some (e'.epoch, t.key) = rw he t.current in
      let known : member s' e'.sender_id ≡ some t.sender = rw hs t.known in
      rw t.accepted (
        open_message-replayed s' message_type' e' t.key t.sender e.sender_sequence current known
          heard hq)
