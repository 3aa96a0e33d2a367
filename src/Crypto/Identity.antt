-- ===== src/Crypto/Identity.antt =====
-- crypto/identity.rs: key pairs, the wrapping keys that the host shares with each member, and the
-- envelopes of epoch keys. What the random generator yields is an argument; `none` is an error.
use veilroom.Prelude.{
  Bool, Bytes, Option, Option-cases, Text, and_then, arith, as_bytes, if◌then◌else◌, inl, inr,
  length, none, not, some, text, to_be_bytes, ℕ, ◌++◌, ◌==◌, ◌≡◌, nat_eq, list_eq, pair_eq,
}
use veilroom.Crypto.Primitives.{Primitives, IsSound}

-- `HostIdentity` and `MemberIdentity`: two secret keys.
pub record Identity : Type 0 where
  pub ed25519 : Bytes
  pub x25519 : Bytes

pub record EpochEnvelope : Type 0 where
  pub nonce : Bytes
  pub ciphertext : Bytes

abbrev pub epoch_key_len : ℕ
epoch_key_len = 32

abbrev member_wrap_key_label : Text
member_wrap_key_label = text "VEILROOM-MEMBER-WRAP-KEY-V1"

abbrev epoch_wrap_label : Text
epoch_wrap_label = text "VEILROOM-EPOCH-WRAP-V1"

-- `<[u8; n]>::try_from`.
abbrev pub array_of : ℕ → Bytes → Option Bytes
array_of n bytes = if length bytes == n then some bytes else none

epoch_aad : ℕ → Bytes → Bytes
epoch_aad epoch room_session_id =
    (as_bytes epoch_wrap_label ++ room_session_id) ++ to_be_bytes 8 epoch

module _ (p : Primitives) where
  unfoldable pub ed25519_pubkey : Identity → Bytes
  ed25519_pubkey identity = p.ed25519_public identity.ed25519

  unfoldable pub x25519_pubkey : Identity → Bytes
  x25519_pubkey identity = p.x25519_public identity.x25519

  unfoldable pub sign : Identity → Bytes → Bytes
  sign identity message = p.ed25519_sign identity.ed25519 message

  derive_checked : Bytes → Bytes → ℕ → Option Bytes
  derive_checked shared room_session_id member_id =
      if not (p.was_contributory shared)
      then none
      else some (
          p.hkdf room_session_id shared (as_bytes member_wrap_key_label ++ to_be_bytes 8 member_id))

  -- On the host's side with a member's key, and on the member's side with the host's.
  unfoldable pub try_wrap_key_for : Identity → Bytes → Bytes → ℕ → Option Bytes
  unfolding derive_checked
  try_wrap_key_for identity pubkey room_session_id member_id =
      derive_checked (p.diffie_hellman identity.x25519 pubkey) room_session_id member_id

  sealed_with : Bytes → Option Bytes → Option EpochEnvelope
  sealed_with nonce none = none
  sealed_with nonce (some ciphertext) = some (record { nonce = nonce; ciphertext = ciphertext })

  unfoldable pub wrap_epoch_key : Option Bytes → Bytes → Bytes → ℕ → Bytes → Option EpochEnvelope
  unfolding sealed_with epoch_aad
  wrap_epoch_key none wrap_key epoch_key epoch room_session_id = none
  wrap_epoch_key (some nonce) wrap_key epoch_key epoch room_session_id =
      sealed_with nonce (p.encrypt wrap_key nonce (epoch_aad epoch room_session_id) epoch_key)

  unfoldable pub unwrap_epoch_key : Bytes → ℕ → Bytes → Bytes → Bytes → Option Bytes
  unfolding epoch_aad
  unwrap_epoch_key wrap_key epoch room_session_id nonce ciphertext =
      and_then (p.decrypt wrap_key nonce (epoch_aad epoch room_session_id) ciphertext)
        (array_of epoch_key_len)

  unfoldable pub verify_ed25519 : Bytes → Bytes → Bytes → Bool
  verify_ed25519 pubkey message signature = p.ed25519_verify pubkey message signature

  module _ (sound : IsSound p) where
    -- Host and member derive one wrapping key, each from its secret and the other's public key.
    pub try_wrap_key_for_comm :
        (host member : Identity) (room_session_id : Bytes) (member_id : ℕ)
        → try_wrap_key_for member (x25519_pubkey host) room_session_id member_id
          ≡ try_wrap_key_for host (x25519_pubkey member) room_session_id member_id
    unfolding try_wrap_key_for x25519_pubkey
    try_wrap_key_for_comm host member room_session_id member_id =
        rw (sound.diffie_hellman_comm member.x25519 host.x25519)

    -- What was wrapped under a key is unwrapped under it, for the same epoch and room.
    pub unwrap_epoch_key-wrap_epoch_key :
        (nonce : Option Bytes) (wrap_key epoch_key : Bytes) (epoch : ℕ) (room_session_id : Bytes)
        {envelope : EpochEnvelope}
        → length epoch_key ≡ epoch_key_len
        → wrap_epoch_key nonce wrap_key epoch_key epoch room_session_id ≡ some envelope
        → unwrap_epoch_key wrap_key epoch room_session_id envelope.nonce envelope.ciphertext
          ≡ some epoch_key
    unfolding wrap_epoch_key unwrap_epoch_key
    unwrap_epoch_key-wrap_epoch_key none wrap_key epoch_key epoch room_session_id h e = absurd (cc)
    unwrap_epoch_key-wrap_epoch_key (some nonce) wrap_key epoch_key epoch room_session_id h e =
        let aad = epoch_aad epoch room_session_id in
        elim (Option-cases (p.encrypt wrap_key nonce aad epoch_key)) [
          | inl refused ↦ absurd (ground arith)
          | inr (c, made) ↦
              ground (arith, sound.decrypt-encrypt wrap_key nonce aad epoch_key c made)
        ]
