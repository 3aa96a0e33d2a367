-- ===== src/Chat/Session/Open.antt =====
-- chat/session.rs: opening an envelope, and what is received in it.
use veilroom.Prelude.{
  Bool, Bytes, Option, Text, [], all, false, from_be_bytes, from_utf8, if◌then◌else◌, leb, none,
  not, some, ℕ, ◌&&◌, ◌==◌, ◌∷◌, nat_eq, list_eq, pair_eq,
}
use veilroom.Chat.Replay.{accept, last_accepted}
use veilroom.Command.Color.{ColorChoice, from_index}
use veilroom.Crypto.Envelope.{Opened, open_envelope}
use veilroom.Crypto.Identity.{array_of}
use veilroom.Crypto.Primitives.{Primitives}
use veilroom.Event.{EncryptedEnvelope}
use veilroom.Limits
use veilroom.Validation.{validate_chat_text}
use veilroom.Chat.Session.{
  ChatSession, ChatError, PlaintextError, MemberView, Result, ok, err, bind, Effect, member,
  msg_chat, msg_color, msg_timeout_request, msg_timeout_changed, validate_timeout_seconds, valid,
}

abbrev refuse {ℓ} : {A : Type ℓ} → PlaintextError → Result A
refuse e = err (ChatError.invalid_plaintext e)

replayed : Option ℕ → ℕ → Bool
replayed none sequence = false
replayed (some last) sequence = leb sequence last

-- Only a message that was opened is recorded.
opened : ChatSession → ℕ → EncryptedEnvelope → Opened → Effect Bytes
opened s epoch e Opened.invalid_signature = (s, err ChatError.invalid_signature)
opened s epoch e Opened.decrypt = (s, err ChatError.invalid_ciphertext)
opened s epoch e (Opened.plaintext m) =
    (record s { replay = (accept s.replay e.sender_id epoch e.sender_sequence).0 }, ok m)

unfoldable pub text_of : Option Text → Result Text
text_of none = refuse PlaintextError.not_utf8
text_of (some t) = bind (valid (validate_chat_text t Limits.default)) (λ _. ok t)

unfoldable pub color_of : Bytes → Result ColorChoice
color_of (index ∷ []) = elim (from_index index) [
  | none ↦ err (ChatError.unknown_color index)
  | some c ↦ ok c
]
color_of _ = refuse PlaintextError.color_length

unfoldable pub seconds_of : Option Bytes → Result ℕ
seconds_of none = refuse PlaintextError.timeout_request_length
seconds_of (some bytes) =
    let seconds = from_be_bytes 0 bytes in bind (validate_timeout_seconds seconds) (λ _. ok seconds)

-- The nine bytes of a setting: a flag, and the seconds.
unfoldable pub setting_of : Option Bytes → Result (Option ℕ)
setting_of none = refuse PlaintextError.timeout_setting_length
setting_of (some []) = refuse PlaintextError.timeout_setting_length
setting_of (some (flag ∷ bytes)) =
    let seconds = from_be_bytes 0 bytes in
    if flag == 0 && all (λ b. b == 0) bytes
    then ok none
    else if flag == 1
    then bind (validate_timeout_seconds seconds) (λ _. ok (some seconds))
    else refuse PlaintextError.invalid_flag

-- What is done with the plaintext of an envelope that was opened.
abbrev and_read : {A : Type 0} → Effect Bytes → (Bytes → Result A) → Effect A
and_read (s, err x) f = (s, err x)
and_read (s, ok m) f = (s, f m)

module _ (p : Primitives) where
  open_from : ChatSession → ℕ → EncryptedEnvelope → ℕ → Bytes → Option MemberView → Effect Bytes
  unfolding replayed opened
  open_from s message_type e epoch key none = (s, err (ChatError.unknown_sender e.sender_id))
  open_from s message_type e epoch key (some sender) =
      if replayed (last_accepted s.replay e.sender_id epoch) e.sender_sequence
      then (s, err (ChatError.replay_rejected e.sender_id e.sender_sequence))
      else opened s epoch e (
          open_envelope p 1 s.room_session_id epoch e.sender_id e.sender_sequence message_type key
            sender.ed25519_pubkey e.nonce e.ciphertext e.signature)

  open_with : ChatSession → ℕ → EncryptedEnvelope → Option (ℕ × Bytes) → Effect Bytes
  unfolding open_from
  open_with s message_type e none = (s, err ChatError.no_epoch_key)
  open_with s message_type e (some (epoch, key)) =
      if not (e.epoch == epoch)
      then (s, err (ChatError.old_epoch e.epoch epoch))
      else open_from s message_type e epoch key (member s e.sender_id)

  unfoldable pub open_message : ChatSession → ℕ → EncryptedEnvelope → Effect Bytes
  unfolding open_with
  open_message s message_type e = open_with s message_type e s.current_epoch

  unfoldable pub receive_chat : ChatSession → EncryptedEnvelope → Effect Text
  unfolding text_of
  receive_chat s e = and_read (open_message s msg_chat e) (λ m. text_of (from_utf8 m))

  unfoldable pub receive_color : ChatSession → EncryptedEnvelope → Effect ColorChoice
  unfolding color_of
  receive_color s e = and_read (open_message s msg_color e) color_of

  unfoldable pub receive_timeout_request : ChatSession → EncryptedEnvelope → Effect ℕ
  unfolding seconds_of
  receive_timeout_request s e =
      and_read (open_message s msg_timeout_request e) (λ m. seconds_of (array_of 8 m))

  unfoldable pub receive_timeout_changed : ChatSession → EncryptedEnvelope → Effect (Option ℕ)
  unfolding setting_of
  receive_timeout_changed s e =
      if not (e.sender_id == 0)
      then (s, refuse PlaintextError.not_host)
      else and_read (open_message s msg_timeout_changed e) (λ m. setting_of (array_of 9 m))
