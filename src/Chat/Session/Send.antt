-- ===== src/Chat/Session/Send.antt =====
-- chat/session.rs: what a member seals and sends. The nonce is what the random generator draws, if it does not fail.
use veilroom.Prelude.{
  Bytes, Option, Text, [], as_bytes, none, some, succ64, text, to_be_bytes, ℕ, ◌∷◌,
}
use veilroom.Command.Color.{ColorChoice, as_index}
use veilroom.Crypto.Envelope.{SealedEnvelope, seal_envelope}
use veilroom.Crypto.Identity.{Identity}
use veilroom.Crypto.Primitives.{Primitives}
use veilroom.Event.{EncryptedEnvelope, new_envelope}
use veilroom.Limits
use veilroom.Room.Action.{Message}
use veilroom.Validation.{validate_chat_text}
use veilroom.Chat.Session.{
  ChatSession, ChatError, Result, ok, err, Effect, msg_chat, msg_color, msg_timeout_request,
  msg_timeout_changed, validate_timeout_seconds, valid,
}

checked : Option EncryptedEnvelope → Result EncryptedEnvelope
checked none = err ChatError.invalid_ciphertext
checked (some e) = ok e

packed : ChatSession → ℕ → Option SealedEnvelope → Result EncryptedEnvelope
unfolding checked
packed s epoch none = err ChatError.invalid_ciphertext
packed s epoch (some sealed) = checked (
    new_envelope epoch s.member_id s.sender_sequence sealed.nonce sealed.ciphertext
      sealed.signature)

-- The payload of a timeout setting: a flag and the seconds.
unfoldable pub setting_bytes : Option ℕ → Bytes
setting_bytes none = 0 ∷ to_be_bytes 8 0
setting_bytes (some seconds) = 1 ∷ to_be_bytes 8 seconds

unfoldable pub validate_interval : Option ℕ → Result (Unit {0})
validate_interval none = ok tt
validate_interval (some seconds) = validate_timeout_seconds seconds

message_of : (EncryptedEnvelope → Message) → Effect EncryptedEnvelope → Effect Message
message_of c (s, ok e) = (s, ok (c e))
message_of c (s, err x) = (s, err x)

module _ (p : Primitives) where
  seal_with :
      ChatSession
      → Identity
      → ℕ
      → Bytes
      → Option Bytes
      → Option (ℕ × Bytes)
      → Effect EncryptedEnvelope
  unfolding packed
  seal_with session identity message_type plaintext drawn none =
      (session, err ChatError.no_epoch_key)
  seal_with session identity message_type plaintext drawn (some (epoch, key)) =
      let s = record session { sender_sequence = succ64 session.sender_sequence } in
      (
        s,
        packed s epoch (
            seal_envelope p 1 s.room_session_id epoch s.member_id s.sender_sequence message_type
              drawn key identity plaintext),
      )

  unfoldable pub seal : ChatSession → Identity → ℕ → Bytes → Option Bytes → Effect EncryptedEnvelope
  unfolding seal_with
  seal s identity message_type plaintext drawn =
      seal_with s identity message_type plaintext drawn s.current_epoch

  -- The early return of an argument that is refused.
  send_if :
      ChatSession
      → Identity
      → ℕ
      → (EncryptedEnvelope → Message)
      → Bytes
      → Option Bytes
      → Result (Unit {0})
      → Effect Message
  unfolding seal message_of
  send_if s identity message_type c plaintext drawn (err x) = (s, err x)
  send_if s identity message_type c plaintext drawn (ok u) =
      message_of c (seal s identity message_type plaintext drawn)

  unfoldable pub send_chat : ChatSession → Identity → Text → Option Bytes → Effect Message
  unfolding send_if
  send_chat s identity text drawn =
      send_if s identity msg_chat Message.chat_message (as_bytes text) drawn
        (valid (validate_chat_text text Limits.default))

  unfoldable pub send_color : ChatSession → Identity → ColorChoice → Option Bytes → Effect Message
  unfolding seal message_of
  send_color s identity color drawn =
      message_of Message.color_change (seal s identity msg_color (as_index color ∷ []) drawn)

  unfoldable pub send_timeout_request : ChatSession → Identity → ℕ → Option Bytes → Effect Message
  unfolding send_if
  send_timeout_request s identity seconds drawn =
      send_if s identity msg_timeout_request Message.timeout_request (to_be_bytes 8 seconds) drawn
        (validate_timeout_seconds seconds)

  unfoldable pub send_timeout_changed :
      ChatSession → Identity → Option ℕ → Option Bytes → Effect Message
  unfolding send_if validate_interval setting_bytes
  send_timeout_changed s identity interval drawn =
      send_if s identity msg_timeout_changed Message.timeout_changed (setting_bytes interval) drawn
        (validate_interval interval)
