-- ===== src/Crypto/Envelope.antt =====
-- crypto/chat.rs: the sealed and signed envelopes of chat messages. The random generator's nonce is an
-- argument.
use veilroom.Prelude.{
  Bytes, Option, Option-cases, Text, [], arith, as_bytes, if◌then◌else◌, inl, inr, length, none,
  not, refl, some, text, to_be_bytes, true, ℕ, ◌++◌, ◌+◌, ◌∷◌, ◌≡◌, ◌≤◌,
}
use veilroom.Crypto.Primitives.{Primitives, IsSound, xchacha_tag_len}
use veilroom.Crypto.Identity.{Identity, ed25519_pubkey, sign, verify_ed25519}
use veilroom.Crypto.Transcript.{chat_transcript}

abbrev chat_aad_label : Text
chat_aad_label = text "VEILROOM-CHAT-AAD-V1"

pub record SealedEnvelope : Type 0 where
  pub nonce : Bytes
  pub ciphertext : Bytes
  pub signature : Bytes

-- The result of `open_envelope`: the plaintext, or a `ChatOpenError`.
pub data Opened : Type 0 where
  plaintext : Bytes → Opened
  invalid_signature decrypt : Opened

unfoldable pub chat_aad : ℕ → Bytes → ℕ → ℕ → ℕ → ℕ → Bytes
chat_aad version room_session_id epoch sender_id sender_sequence message_type =
    ((((((as_bytes chat_aad_label ++ version ∷ []) ++ room_session_id) ++ to_be_bytes 8 epoch)
          ++ to_be_bytes 8 sender_id)
        ++ to_be_bytes 8 sender_sequence)
      ++ message_type ∷ [])

opened : Option Bytes → Opened
opened none = decrypt
opened (some message) = plaintext message

module _ (p : Primitives) where
  module _ (version : ℕ) (room_session_id : Bytes)
      (epoch sender_id sender_sequence message_type : ℕ) where
    signed : Identity → Bytes → Option Bytes → Option SealedEnvelope
    signed identity nonce none = none
    signed identity nonce (some ciphertext) = some (record {
      nonce = nonce;
      ciphertext = ciphertext;
      signature = sign p identity (
          chat_transcript version room_session_id epoch sender_id sender_sequence message_type nonce
            ciphertext);
    })

    unfoldable pub seal_envelope : Option Bytes → Bytes → Identity → Bytes → Option SealedEnvelope
    unfolding signed chat_aad
    seal_envelope none epoch_key identity message = none
    seal_envelope (some nonce) epoch_key identity message = signed identity nonce (
        p.encrypt epoch_key nonce
          (chat_aad version room_session_id epoch sender_id sender_sequence message_type) message)

    unfoldable pub open_envelope : Bytes → Bytes → Bytes → Bytes → Bytes → Opened
    unfolding opened chat_aad
    open_envelope epoch_key sender_ed25519_pubkey nonce ciphertext signature =
        if not (
          verify_ed25519 p sender_ed25519_pubkey
            (chat_transcript version room_session_id epoch sender_id sender_sequence message_type
              nonce ciphertext)
            signature)
        then invalid_signature
        else opened (
            p.decrypt epoch_key nonce
              (chat_aad version room_session_id epoch sender_id sender_sequence message_type)
              ciphertext)

    -- What was sealed opens to its message under the same key, with the public key of its signer.
    pub open_envelope-seal_envelope :
        IsSound p
        → (nonce : Option Bytes) (epoch_key : Bytes) (identity : Identity) (message : Bytes)
          {sealed : SealedEnvelope}
        → seal_envelope nonce epoch_key identity message ≡ some sealed
        → open_envelope epoch_key
            (ed25519_pubkey p identity)
            sealed.nonce
            sealed.ciphertext
            sealed.signature
          ≡ plaintext message
    unfolding seal_envelope open_envelope ed25519_pubkey sign verify_ed25519
    open_envelope-seal_envelope sound none epoch_key identity message e = absurd (cc)
    open_envelope-seal_envelope sound (some nonce) epoch_key identity message e =
        let aad = chat_aad version room_session_id epoch sender_id sender_sequence message_type in
        elim (Option-cases (p.encrypt epoch_key nonce aad message)) [
          | inl refused ↦ absurd (ground arith)
          | inr (c, made) ↦
              let covered =
                chat_transcript version room_session_id epoch sender_id sender_sequence message_type
                  nonce c in
              ground (
                arith,
                sound.decrypt-encrypt epoch_key nonce aad message c made,
                sound.verify-sign identity.ed25519 covered,
              )
        ]

    -- An envelope opens only when its signature verifies and its ciphertext authenticates.
    pub open_envelope-plaintext :
        (epoch_key pubkey nonce ciphertext signature : Bytes) {message : Bytes}
        → open_envelope epoch_key pubkey nonce ciphertext signature ≡ plaintext message
        → (verify_ed25519 p pubkey
              (chat_transcript version room_session_id epoch sender_id sender_sequence message_type
                nonce ciphertext)
              signature
            ≡ true)
          × (p.decrypt epoch_key nonce
                (chat_aad version room_session_id epoch sender_id sender_sequence message_type)
                ciphertext
              ≡ some message)
    unfolding open_envelope
    open_envelope-plaintext epoch_key pubkey nonce ciphertext signature h =
        (ground arith, ground arith)

    -- A message that is not too long is sealed, with a tag of 16 bytes behind it.
    pub seal_envelope-opens :
        IsSound p
        → (nonce epoch_key : Bytes) (identity : Identity) (message : Bytes) → length message ≤ 4096
        → (sealed : SealedEnvelope) × (seal_envelope (some nonce) epoch_key identity message
            ≡ some sealed)
          × (length sealed.ciphertext ≡ length message + xchacha_tag_len)
          × (open_envelope epoch_key
                (ed25519_pubkey p identity)
                sealed.nonce
                sealed.ciphertext
                sealed.signature
              ≡ plaintext message)
    unfolding seal_envelope
    seal_envelope-opens sound nonce epoch_key identity message h =
        let aad = chat_aad version room_session_id epoch sender_id sender_sequence message_type in
        let (c, made) = sound.encrypts epoch_key nonce aad message h in
        let sealed : SealedEnvelope = record {
          nonce = nonce;
          ciphertext = c;
          signature = sign p identity (
              chat_transcript version room_session_id epoch sender_id sender_sequence message_type
                nonce c);
        } in
        let seals : seal_envelope (some nonce) epoch_key identity message ≡ some sealed =
          rw made refl in
        (
          sealed,
          seals,
          sound.length-encrypt epoch_key nonce aad message c made,
          open_envelope-seal_envelope sound (some nonce) epoch_key identity message seals,
        )
