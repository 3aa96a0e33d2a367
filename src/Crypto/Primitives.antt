-- ===== src/Crypto/Primitives.antt =====
-- The third-party primitives that crypto/ calls: Ed25519, X25519, HKDF and XChaCha20-Poly1305. A
-- function that can fail returns an `Option`. Keys, nonces and texts are bytes.
use veilroom.Prelude.{Bool, Bytes, Option, length, some, true, ℕ, ◌+◌, ◌≡◌, ◌≤◌}

pub record Primitives : Type 0 where
  pub ed25519_public : Bytes → Bytes
  pub ed25519_sign : Bytes → Bytes → Bytes
  -- `false` also for a key or a signature that is malformed.
  pub ed25519_verify : Bytes → Bytes → Bytes → Bool
  pub x25519_public : Bytes → Bytes
  pub diffie_hellman : Bytes → Bytes → Bytes
  pub was_contributory : Bytes → Bool
  -- The 32 bytes of HKDF-SHA-256 for a salt, a key and an info.
  pub hkdf : Bytes → Bytes → Bytes → Bytes
  -- A key, a nonce, the additional data and a message.
  pub encrypt : Bytes → Bytes → Bytes → Bytes → Option Bytes
  pub decrypt : Bytes → Bytes → Bytes → Bytes → Option Bytes

abbrev pub xchacha_tag_len : ℕ
xchacha_tag_len = 16

-- What the documentation of the primitives promises.
pub record IsSound (p : Primitives) : Type 0 where
  pub verify-sign :
      (key message : Bytes)
      → p.ed25519_verify (p.ed25519_public key) message (p.ed25519_sign key message) ≡ true
  pub diffie_hellman_comm :
      (a b : Bytes)
      → p.diffie_hellman a (p.x25519_public b) ≡ p.diffie_hellman b (p.x25519_public a)
  pub decrypt-encrypt :
      (key nonce aad message ciphertext : Bytes)
      → p.encrypt key nonce aad message ≡ some ciphertext
      → p.decrypt key nonce aad ciphertext ≡ some message
  pub length-encrypt :
      (key nonce aad message ciphertext : Bytes)
      → p.encrypt key nonce aad message ≡ some ciphertext
      → length ciphertext ≡ length message + xchacha_tag_len
  -- Encryption fails only on messages far longer than any of the protocol.
  pub encrypts :
      (key nonce aad message : Bytes)
      → length message ≤ 4096
      → (ciphertext : Bytes) × (p.encrypt key nonce aad message ≡ some ciphertext)
