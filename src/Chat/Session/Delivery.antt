-- ===== src/Chat/Session/Delivery.antt =====
-- What one member sends, another member receives.
use veilroom.Prelude.{
  Bytes, [], arith, length, le→leb, nat_eq, refl, some, succ64_lem, true, u64_mod, ℕ, ◌+◌, ◌<◌, ◌≡◌,
  ◌≤◌,
}
use veilroom.Chat.Replay.{last_accepted, is_new}
use veilroom.Crypto.Envelope.{
  SealedEnvelope, Opened, seal_envelope, open_envelope, seal_envelope-opens,
}
use veilroom.Crypto.Identity.{Identity, ed25519_pubkey}
use veilroom.Crypto.Primitives.{Primitives, IsSound}
use veilroom.Event.{EncryptedEnvelope, new_envelope}
use veilroom.Chat.Session.{ChatSession, ChatError, MemberView, ok, err, member}
use veilroom.Chat.Session.Authentic.{after_accept}
use veilroom.Chat.Session.Open.{open_message}
use veilroom.Chat.Session.Send.{seal}

module _ (p : Primitives) where
  -- The envelope of a sealed message.
  abbrev packed : ChatSession → ℕ → SealedEnvelope → EncryptedEnvelope
  packed s epoch sealed = record {
    epoch = epoch;
    sender_id = s.member_id;
    sender_sequence = s.sender_sequence + 1;
    nonce = sealed.nonce;
    ciphertext = sealed.ciphertext;
    signature = sealed.signature;
  }

  abbrev pub sent : ChatSession → ChatSession
  sent s = record s { sender_sequence = s.sender_sequence + 1 }

  seal-packed :
      (s : ChatSession) (identity : Identity) (message_type : ℕ) (m nonce key : Bytes) (epoch : ℕ)
      (sealed : SealedEnvelope)
      → s.current_epoch ≡ some (epoch, key)
      → s.sender_sequence + 1 < u64_mod
      → seal_envelope p 1 s.room_session_id epoch s.member_id
          (s.sender_sequence + 1)
          message_type
          (some nonce)
          key
          identity
          m
        ≡ some sealed
      → 17 ≤ length sealed.ciphertext
      → length sealed.ciphertext ≤ 4112
      → seal p s identity message_type m (some nonce) ≡ (sent s, ok (packed s epoch sealed))
  unfolding seal new_envelope
  seal-packed s identity message_type m nonce key epoch sealed current fits seals lo hi =
      rw (current, seal)
        (rw (succ64_lem s.sender_sequence fits)
          (rw seals (rw (le→leb 17 _ lo, le→leb _ 4112 hi) refl)))

  -- A ciphertext that is too short for an envelope uses up a sequence and is refused.
  seal-short :
      (s : ChatSession) (identity : Identity) (message_type : ℕ) (m nonce key : Bytes) (epoch : ℕ)
      (sealed : SealedEnvelope)
      → s.current_epoch ≡ some (epoch, key)
      → s.sender_sequence + 1 < u64_mod
      → seal_envelope p 1 s.room_session_id epoch s.member_id
          (s.sender_sequence + 1)
          message_type
          (some nonce)
          key
          identity
          m
        ≡ some sealed
      → length sealed.ciphertext ≡ 16
      → seal p s identity message_type m (some nonce) ≡ (sent s, err ChatError.invalid_ciphertext)
  unfolding seal new_envelope
  seal-short s identity message_type m nonce key epoch sealed current fits seals size =
      rw (current, seal) (rw (succ64_lem s.sender_sequence fits) (rw seals (rw size refl)))

  open_message-packed :
      (s r : ChatSession) (message_type : ℕ) (m key : Bytes) (epoch : ℕ) (sealed : SealedEnvelope)
      (view : MemberView)
      → r.current_epoch ≡ some (epoch, key)
      → member r s.member_id ≡ some view
      → is_new (last_accepted r.replay s.member_id epoch) (s.sender_sequence + 1) ≡ true
      → open_envelope p 1 r.room_session_id epoch s.member_id
          (s.sender_sequence + 1)
          message_type
          key
          view.ed25519_pubkey
          sealed.nonce
          sealed.ciphertext
          sealed.signature
        ≡ Opened.plaintext m
      → open_message p r message_type (packed s epoch sealed)
        ≡ (after_accept r (packed s epoch sealed), ok m)
  unfolding open_message
  open_message-packed s r message_type m key epoch sealed view current known unheard opens =
      ground (arith, nat_eq.eq_iff epoch epoch)

  -- Two sessions of one room in one epoch, where the receiver knows the sender's key and has not yet
  -- heard the sender's next sequence.
  pub record IsPaired (s r : ChatSession) (identity : Identity) : Type 0 where
    pub epoch : ℕ
    pub key : Bytes
    pub view : MemberView
    pub sends_in : s.current_epoch ≡ some (epoch, key)
    pub receives_in : r.current_epoch ≡ some (epoch, key)
    pub one_room : r.room_session_id ≡ s.room_session_id
    pub known : member r s.member_id ≡ some view
    pub its_key : view.ed25519_pubkey ≡ ed25519_pubkey p identity
    pub unheard : is_new (last_accepted r.replay s.member_id epoch) (s.sender_sequence + 1) ≡ true
    pub room_left : s.sender_sequence + 1 < u64_mod

  module _ (sound : IsSound p) (s r : ChatSession) (identity : Identity)
      (paired : IsPaired s r identity) (nonce : Bytes) where
    pub seal-opens :
        (message_type : ℕ) (m : Bytes)
        → 1 ≤ length m
        → length m ≤ 4096
        → (e : EncryptedEnvelope) × (seal p s identity message_type m (some nonce) ≡ (sent s, ok e))
          × (e.sender_id ≡ s.member_id)
          × (open_message p r message_type e ≡ (after_accept r e, ok m))
    seal-opens message_type m lo hi =
        let (sealed, seals, size, opens) =
          seal_envelope-opens p 1 s.room_session_id paired.epoch s.member_id (s.sender_sequence + 1)
            message_type sound nonce paired.key identity m hi in
        (
          packed s paired.epoch sealed,
          seal-packed s identity message_type m nonce paired.key paired.epoch sealed paired.sends_in
              paired.room_left seals (omega arith) (omega arith),
          refl,
          open_message-packed s r message_type m paired.key paired.epoch sealed paired.view
              paired.receives_in paired.known paired.unheard
              (rw (paired.one_room, paired.its_key) opens),
        )

    pub seal-nothing :
        (message_type : ℕ)
        → seal p s identity message_type [] (some nonce)
          ≡ (sent s, err ChatError.invalid_ciphertext)
    seal-nothing message_type =
        let (sealed, seals, size, opens) =
          seal_envelope-opens p 1 s.room_session_id paired.epoch s.member_id (s.sender_sequence + 1)
            message_type sound nonce paired.key identity [] (omega arith) in
        seal-short s identity message_type [] nonce paired.key paired.epoch sealed paired.sends_in
          paired.room_left seals (omega arith)
