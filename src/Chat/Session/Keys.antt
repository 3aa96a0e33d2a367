-- ===== src/Chat/Session/Keys.antt =====
-- chat/session.rs: `set_epoch_from_wrap`.
use veilroom.Prelude.{Bytes, Option, if◌then◌else◌, leb, none, some, ℕ}
use veilroom.Crypto.Identity.{Identity, try_wrap_key_for, unwrap_epoch_key}
use veilroom.Crypto.Primitives.{Primitives}
use veilroom.Chat.Session.{ChatSession, ChatError, ok, err, Effect, install_epoch}

-- protocol/epoch.rs
pub record EpochWrap : Type 0 where
  pub epoch : ℕ
  pub nonce : Bytes
  pub ciphertext : Bytes

installed : ChatSession → ℕ → Option Bytes → Effect ℕ
installed s epoch none = (s, err ChatError.invalid_ciphertext)
installed s epoch (some key) = (install_epoch s epoch key, ok epoch)

module _ (p : Primitives) where
  unwrapped : ChatSession → EpochWrap → Option Bytes → Effect ℕ
  unfolding installed
  unwrapped s w none = (s, err ChatError.invalid_ciphertext)
  unwrapped s w (some wrap_key) =
      installed s w.epoch
        (unwrap_epoch_key p wrap_key w.epoch s.room_session_id w.nonce w.ciphertext)

  unwrap : ChatSession → Identity → EpochWrap → Effect ℕ
  unfolding unwrapped
  unwrap s identity w =
      unwrapped s w (try_wrap_key_for p identity s.host_x25519_pubkey s.room_session_id s.member_id)

  newer : ChatSession → Identity → EpochWrap → Option (ℕ × Bytes) → Effect ℕ
  unfolding unwrap
  newer s identity w none = unwrap s identity w
  newer s identity w (some (current, key)) =
      if leb w.epoch current
      then (s, err (ChatError.old_epoch w.epoch current))
      else unwrap s identity w

  unfoldable pub set_epoch_from_wrap : ChatSession → Identity → EpochWrap → Effect ℕ
  unfolding newer
  set_epoch_from_wrap s identity w = newer s identity w s.current_epoch
