-- ===== src/Chat/Session/Speech.antt =====
-- What a member says, the other members hear.
use veilroom.Prelude.{All, Bytes, IsScalar, Option, Text, [], none, some, ℕ, ◌≡◌, ◌≤◌}
use veilroom.Command.Color.{ColorChoice}
use veilroom.Crypto.Identity.{Identity}
use veilroom.Crypto.Primitives.{Primitives}
use veilroom.Limits
use veilroom.Room.Action.{Message}
use veilroom.Validation
use veilroom.Validation.{validate_chat_text}
use veilroom.Chat.Session.{ChatSession, ChatError, PlaintextError, ok, err, Effect}
use veilroom.Chat.Session.Delivery.{sent}
use veilroom.Chat.Session.Open.{
  receive_chat, receive_color, receive_timeout_request, receive_timeout_changed,
}
use veilroom.Chat.Session.Send.{send_chat, send_color, send_timeout_request, send_timeout_changed}

-- What a member says, with the message type that carries it.
pub data Speech : Type 0 where
  chat : Text → Speech
  color : ColorChoice → Speech
  timeout_request : ℕ → Speech
  timeout_changed : Option ℕ → Speech

abbrev IsInterval : ℕ → Type 0
IsInterval seconds = (1 ≤ seconds) × (seconds ≤ 3600)

abbrev pub IsSetting : Option ℕ → Type 0
IsSetting none = Unit
IsSetting (some seconds) = IsInterval seconds

-- A text of scalar values that passes the validation, which the empty text does, a lifetime in its range, and a room-wide setting
-- only from the host.
abbrev pub IsSayable : ChatSession → Speech → Type 0
IsSayable s (chat t) =
    All IsScalar t × (validate_chat_text t Limits.default ≡ Validation.Result.ok tt)
IsSayable s (color c) = Unit
IsSayable s (timeout_request seconds) = IsInterval seconds
IsSayable s (timeout_changed interval) = (s.member_id ≡ 0) × IsSetting interval

abbrev heard_as : {A : Type 0} → (A → Speech) → Effect A → Effect Speech
heard_as f (s, ok a) = (s, ok (f a))
heard_as f (s, err x) = (s, err x)

module _ (p : Primitives) where
  abbrev pub say : ChatSession → Identity → Speech → Option Bytes → Effect Message
  say s identity (chat t) drawn = send_chat p s identity t drawn
  say s identity (color c) drawn = send_color p s identity c drawn
  say s identity (timeout_request seconds) drawn = send_timeout_request p s identity seconds drawn
  say s identity (timeout_changed interval) drawn = send_timeout_changed p s identity interval drawn

  abbrev pub hear : ChatSession → Message → Effect Speech
  hear r (Message.chat_message e) = heard_as chat (receive_chat p r e)
  hear r (Message.color_change e) = heard_as color (receive_color p r e)
  hear r (Message.timeout_request e) = heard_as timeout_request (receive_timeout_request p r e)
  hear r (Message.timeout_changed e) = heard_as timeout_changed (receive_timeout_changed p r e)
  hear r _ = (r, err (ChatError.invalid_plaintext PlaintextError.not_membership))

  abbrev pub Heard : ChatSession → ChatSession → Identity → Bytes → Speech → Type 0
  Heard s r identity nonce speech =
      (message : Message) × (say s identity speech (some nonce) ≡ (sent p s, ok message))
      × ((hear r message).1 ≡ ok speech)

  -- The empty text is refused, with its sequence used up; everything else is heard.
  abbrev pub Delivered : ChatSession → ChatSession → Identity → Bytes → Speech → Type 0
  Delivered s r identity nonce (chat []) =
      say s identity (chat []) (some nonce) ≡ (sent p s, err ChatError.invalid_ciphertext)
  Delivered s r identity nonce speech = Heard s r identity nonce speech
