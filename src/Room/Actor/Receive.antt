-- ===== src/Room/Actor/Receive.antt =====
-- room/actor.rs: `on_chat_received` — the rate limit, the epoch and replay tests, the envelope, and the
-- relay of what it holds.
pub mod Members
pub mod Replay
use veilroom.Prelude.{
  Bool, Bytes, List, Option, [], false, get_or, if◌then◌else◌, is_some, leb, none, not, some, text,
  true, ℕ, ◌++◌, ◌==◌, ◌||◌, ◌∷◌, nat_eq, list_eq, pair_eq,
}
use veilroom.Prelude.HashMap
use veilroom.Event.{ConnectionId, MemberId, EncryptedEnvelope}
use veilroom.Chat.Replay.{accept, last_accepted}
use veilroom.Protocol.Ids.{ErrorCode}
use veilroom.Room.Action.{RoomAction, send_to, close_connection, notify_host, HostNotice, Message}
use veilroom.Room.Connections
use veilroom.Room.Environment.{Environment, Entropy}
use veilroom.Room.Member.{Member}
use veilroom.Room.Member
use veilroom.Room.Actor.{
  RoomActor, RoomError, Result, ok, err, Effect, and_then_room, ChatError, PlaintextError,
}
use veilroom.Room.Actor.Broadcast.{msg_member_kicked}
use veilroom.Room.Actor.Transition.{remove_member}
use veilroom.Room.Actor.Relay.{
  msg_chat, msg_color, msg_timeout_request, msg_timeout_changed, rate_limit_termination, refuse,
  be_bytes, timeout_setting, color_of, opened, key_in_use, relay_color, timeout_requested,
  timeout_changed, chat_text,
}

-- The types that the handler takes, and those that share the sender's rate limit.
is_chat_type : ℕ → Bool
is_chat_type t =
    t == msg_chat || t == msg_color || t == msg_timeout_request || t == msg_timeout_changed

is_rate_limited : ℕ → Bool
is_rate_limited t = t == msg_chat || t == msg_color || t == msg_timeout_request

rate_limited_actions : ConnectionId → List RoomAction
rate_limited_actions connection =
    send_to connection (
      Message.error ErrorCode.rate_limited
        (text "the room rate limit rejected that message; send more slowly"))
    ∷ notify_host (HostNotice.error (text "member exceeded the message rate limit"))
    ∷ []

replayed : Option ℕ → ℕ → Bool
replayed none sequence = false
replayed (some last) sequence = leb sequence last

module _ {L : Type 0} (env : Environment L) where
  plaintext_with :
      RoomActor L → ℕ → EncryptedEnvelope → Option Member → Option (ℕ × Bytes) → Result Bytes
  unfolding opened
  plaintext_with r message_type e m none = err (RoomError.chat ChatError.no_epoch_key)
  plaintext_with r message_type e none (some k) =
      err (RoomError.chat (ChatError.unknown_sender e.sender_id))
  plaintext_with r message_type e (some m) (some (epoch, key)) = opened (
      env.open_envelope key m.ed25519_pubkey 1 r.session_id epoch e.sender_id e.sender_sequence
        message_type e.nonce e.ciphertext e.signature)

  unfoldable pub chat_plaintext : RoomActor L → MemberId → ℕ → EncryptedEnvelope → Result Bytes
  unfolding plaintext_with key_in_use
  chat_plaintext r sender message_type e =
      plaintext_with r message_type e (Member.by_id r.members sender)
        (key_in_use r.pending_epoch r.epoch r.epoch_key)

  -- What a message of each type does with its plaintext.
  by_type : RoomActor L → ConnectionId → ℕ → EncryptedEnvelope → Bytes → Effect L (List RoomAction)
  by_type r connection message_type e plaintext =
      if message_type == msg_color
      then relay_color r connection e (color_of plaintext)
      else if message_type == msg_timeout_request
      then timeout_requested r connection e.sender_id (be_bytes 8 plaintext)
      else if message_type == msg_timeout_changed
      then timeout_changed r connection e (timeout_setting plaintext)
      else chat_text r connection e (env.from_utf8 plaintext)

  -- The sequence is recorded once the envelope has opened.
  open_and_relay :
      RoomActor L → ConnectionId → ℕ → EncryptedEnvelope → Result Bytes → Effect L (List RoomAction)
  unfolding by_type
  open_and_relay r connection message_type e (err x) = (r, err x)
  open_and_relay r connection message_type e (ok plaintext) =
      by_type
        (record r { chat_replay = (accept r.chat_replay e.sender_id r.epoch e.sender_sequence).0 })
        connection message_type e plaintext

  unfoldable pub check_and_relay :
      RoomActor L → ConnectionId → ℕ → EncryptedEnvelope → Effect L (List RoomAction)
  unfolding open_and_relay replayed
  check_and_relay r connection message_type e =
      if not (e.epoch == r.epoch)
      then (r, err (RoomError.old_epoch e.epoch r.epoch))
      else if replayed (last_accepted r.chat_replay e.sender_id r.epoch) e.sender_sequence
      then (r, err (RoomError.replay_rejected e.sender_id e.sender_sequence))
      else open_and_relay r connection message_type e (chat_plaintext r e.sender_id message_type e)

  after_kick :
      ConnectionId
      → MemberId
      → RoomActor L
      → List RoomAction × Option Member
      → Effect L (List RoomAction)
  after_kick connection sender r (actions, none) = (r, ok actions)
  after_kick connection sender r (actions, some m) = (
    r,
    ok (
        actions
        ++ close_connection connection
          ∷ notify_host (HostNotice.member_kicked sender m.nickname)
          ∷ []),
  )

  -- A message over the rate limit: one too many in a row, and the sender is removed.
  over_limit : RoomActor L → ConnectionId → MemberId → Bool → Entropy → Effect L (List RoomAction)
  unfolding rate_limited_actions after_kick
  over_limit r connection sender abusive entropy =
      if abusive
      then and_then_room
          (remove_member env r sender msg_member_kicked (rate_limited_actions connection) entropy)
          (after_kick connection sender)
      else (r, ok (rate_limited_actions connection))

  abbrev with_limiter : RoomActor L → MemberId → L → RoomActor L
  with_limiter r sender limiter = record r {
    rate_limits = HashMap.insert sender limiter r.rate_limits;
  }

  -- The sender's rate limiter has counted the message, and allows it or not.
  limited :
      RoomActor L
      → ConnectionId
      → ℕ
      → EncryptedEnvelope
      → Entropy
      → L × Bool
      → Effect L (List RoomAction)
  unfolding over_limit check_and_relay
  limited r connection message_type e entropy (limiter, true) =
      check_and_relay (with_limiter r e.sender_id limiter) connection message_type e
  limited r connection message_type e entropy (limiter, false) =
      over_limit (with_limiter r e.sender_id limiter) connection e.sender_id
        (env.is_abusive limiter rate_limit_termination) entropy

  limit_and_relay :
      RoomActor L → ConnectionId → ℕ → EncryptedEnvelope → Entropy → Effect L (List RoomAction)
  unfolding limited check_and_relay is_rate_limited
  limit_and_relay r connection message_type e entropy =
      if is_rate_limited message_type
      then limited r connection message_type e entropy
          (env.allow (get_or (HashMap.get e.sender_id r.rate_limits) (env.new_limiter 5 1)) r.now)
      else check_and_relay r connection message_type e

  received_from :
      RoomActor L
      → ConnectionId
      → ℕ
      → EncryptedEnvelope
      → Entropy
      → Option MemberId
      → Effect L (List RoomAction)
  unfolding limit_and_relay
  received_from r connection message_type e entropy none =
      (r, err (RoomError.not_a_member connection))
  received_from r connection message_type e entropy (some sender) =
      if not (e.sender_id == sender)
      then (r, err (RoomError.chat (ChatError.unknown_sender e.sender_id)))
      else if not (is_some (Member.by_id r.members sender))
      then (r, err (RoomError.not_a_member connection))
      else limit_and_relay r connection message_type e entropy

  unfoldable pub on_chat_received :
      RoomActor L → ConnectionId → ℕ → EncryptedEnvelope → Entropy → Effect L (List RoomAction)
  unfolding received_from is_chat_type
  on_chat_received r connection message_type e entropy =
      if is_chat_type message_type
      then received_from r connection message_type e entropy
          (Connections.member_id r.connections connection)
      else (r, err (refuse PlaintextError.not_chat_type))
