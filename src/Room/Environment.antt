-- ===== src/Room/Environment.antt =====
-- What the room takes from the modules around it: cryptography (crypto/identity.rs, crypto/chat.rs,
-- crypto/transcript.rs), the rate limiter (chat/ratelimit.rs, on floating-point numbers), and the
-- texts that the standard library, the Unicode tables and the derived `Display` make.
use veilroom.Prelude.{Bool, Bytes, List, Option, Text, ℕ}
use veilroom.Room.Action.{SnapshotMember}
use veilroom.Room.Member.{MemberError}

-- The result of `open_envelope`.
pub data Opened : Type 0 where
  plaintext : Bytes → Opened
  invalid_signature not_decrypted : Opened

-- The host's identity is its secret bytes; `L` is the state of a rate limiter.
pub record Environment (L : Type 0) : Type 0 where
  pub new_limiter : ℕ → ℕ → L
  pub allow : L → ℕ → L × Bool
  pub is_abusive : L → ℕ → Bool
  pub try_wrap_key_for : Bytes → Bytes → Bytes → ℕ → Option Bytes
  pub wrap_epoch_key : Bytes → Bytes → ℕ → Bytes → Bytes → Option (Bytes × Bytes)
  pub sign : Bytes → Bytes → Bytes
  pub room_event_transcript : ℕ → Bytes → ℕ → ℕ → ℕ → Bytes → Bytes
  pub member_joined_body : ℕ → Text → Bytes → Bytes
  pub member_gone_body : ℕ → Bytes
  pub join_policy_body : Bool → Bytes
  pub member_snapshot_body : List SnapshotMember → Bytes
  pub open_envelope : Bytes → Bytes → ℕ → Bytes → ℕ → ℕ → ℕ → ℕ → Bytes → Bytes → Bytes → Opened
  pub nfc : Text → Text
  pub is_whitespace : ℕ → Bool
  pub from_utf8 : Bytes → Option Text
  pub describe : MemberError → Text

-- What the random generator gives while one event is handled; `none` is its failure. A wrap draws one
-- nonce per member.
pub record Entropy : Type 0 where
  pub epoch_key : Option Bytes
  pub token : Option Bytes
  pub nonce : ℕ → Bytes
