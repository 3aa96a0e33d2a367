-- ===== src/Room/Actor/Relay.antt =====
-- room/actor.rs: the relay of encrypted messages.
pub mod Members
use veilroom.Prelude.{
  Bool, Bytes, List, Option, Text, [], all, contains, false, from_be_bytes, if◌then◌else◌, leb,
  length, none, not, retain, some, text, true, ℕ, ◌&&◌, ◌++◌, ◌+◌, ◌==◌, ◌∷◌, nat_eq, list_eq,
  pair_eq,
}
use veilroom.Event.{ConnectionId, MemberId, EncryptedEnvelope}
use veilroom.Admission.Queue.{QueueError}
use veilroom.Admission.Queue
use veilroom.Command.Color.{ColorChoice, from_index}
use veilroom.Limits
use veilroom.Protocol.Ids.{ErrorCode}
use veilroom.Room.Action.{RoomAction, send_to, notify_host, HostNotice, Message}
use veilroom.Room.Connections
use veilroom.Room.Environment.{Opened}
use veilroom.Room.Member.{Member}
use veilroom.Room.Member
use veilroom.Validation.{validate_chat_text}
use veilroom.Validation
use veilroom.Room.Actor.{
  RoomActor, RoomError, Result, ok, err, Effect, PendingTimeoutRequest, PendingEpoch, ChatError,
  PlaintextError,
}
use veilroom.Room.Actor.Broadcast.{send_each}

abbrev pub msg_chat : ℕ
msg_chat = 0x40

abbrev pub msg_color : ℕ
msg_color = 0x41

abbrev pub msg_timeout_request : ℕ
msg_timeout_request = 0x42

abbrev pub msg_timeout_changed : ℕ
msg_timeout_changed = 0x43

abbrev pub rate_limit_termination : ℕ
rate_limit_termination = 10

abbrev pub max_message_timeout_seconds : ℕ
max_message_timeout_seconds = 3600

abbrev pub refuse : PlaintextError → RoomError
refuse e = RoomError.chat (ChatError.invalid_plaintext e)

-- `u64::from_be_bytes` of `n` bytes, if there are as many.
unfoldable pub be_bytes : ℕ → Bytes → Option ℕ
unfolding from_be_bytes
be_bytes n bytes = if length bytes == n then some (from_be_bytes 0 bytes) else none

-- `(1..=MAX_MESSAGE_TIMEOUT_SECONDS).contains(&seconds)`
in_range : ℕ → Bool
in_range seconds = leb 1 seconds && leb seconds max_message_timeout_seconds

-- The nine bytes of a timeout setting: a flag, and the seconds.
unfoldable pub timeout_setting : Bytes → Result (Option ℕ)
unfolding be_bytes in_range
timeout_setting [] = err (refuse PlaintextError.timeout_setting_length)
timeout_setting (flag ∷ bytes) = elim (be_bytes 8 bytes) [
  | none ↦ err (refuse PlaintextError.timeout_setting_length)
  | some seconds ↦
      if flag == 0 && all (λ b. b == 0) bytes
      then ok none
      else if flag == 1 && in_range seconds
      then ok (some seconds)
      else err (refuse PlaintextError.invalid_timeout_setting)
]

unfoldable pub color_of : Bytes → Result ColorChoice
color_of (index ∷ []) = elim (from_index index) [
  | none ↦ err (RoomError.unknown_color index)
  | some c ↦ ok c
]
color_of _ = err (refuse PlaintextError.color_length)

unfoldable pub opened : Opened → Result Bytes
opened (Opened.plaintext p) = ok p
opened Opened.invalid_signature = err (RoomError.chat ChatError.invalid_signature)
opened Opened.not_decrypted = err (RoomError.chat ChatError.invalid_ciphertext)

-- The epoch and the key that open an envelope: those of a pending transition first.
unfoldable pub key_in_use : Option PendingEpoch → ℕ → Option Bytes → Option (ℕ × Bytes)
key_in_use (some p) epoch key = some (p.epoch, p.key)
key_in_use none epoch (some key) = some (epoch, key)
key_in_use none epoch none = none

-- The name of a member in the table, for a sender that was found there.
name_of : Option Member → Text
name_of none = []
name_of (some m) = m.nickname

module _ {L : Type 0} where
  -- To every member except the sender.
  unfoldable pub relay : RoomActor L → ConnectionId → Message → List RoomAction
  unfolding send_each
  relay r connection message =
      send_each message (retain (λ m. not (m.connection == connection)) r.members.members)

  acked : RoomActor L → Option PendingEpoch → Option MemberId → Bool
  acked r none id = true
  acked r (some p) none = false
  acked r (some p) (some id) = not (contains p.awaiting id)

  unfoldable pub member_has_acked_pending_epoch : RoomActor L → ConnectionId → Bool
  unfolding acked
  member_has_acked_pending_epoch r connection =
      acked r r.pending_epoch (Connections.member_id r.connections connection)

  unfoldable pub reject_during_transition : RoomActor L → ConnectionId → Effect L (List RoomAction)
  reject_during_transition r connection =
      if connection == r.host_connection
      then (
        r,
        ok (
            notify_host
              (HostNotice.error (text "the room was rotating keys; that action was not applied"))
            ∷ []),
      )
      else (
        r,
        ok (
            send_to connection (
              Message.error ErrorCode.rate_limited (
                text
                  "the room was rotating keys; that message was not delivered, please send it again"))
            ∷ []),
      )

  unfoldable pub relay_color :
      RoomActor L
      → ConnectionId
      → EncryptedEnvelope
      → Result ColorChoice
      → Effect L (List RoomAction)
  unfolding relay
  relay_color r connection e (err x) = (r, err x)
  relay_color r connection e (ok color) =
      let r' = record r { members = Member.set_color r.members e.sender_id color } in
      (r', ok (relay r' connection (Message.color_change e)))

  request_timeout : RoomActor L → ConnectionId → MemberId → ℕ → Effect L (List RoomAction)
  unfolding in_range name_of
  request_timeout r connection id seconds =
      if not (in_range seconds)
      then (r, err (refuse PlaintextError.timeout_request_range))
      else if leb r.requests.limit (Queue.len r.requests + length r.timeout_requests)
      then (r, err (RoomError.queue (QueueError.full r.requests.limit)))
      else (let nickname = name_of (Member.by_id r.members id) in
          let (requests, request_id) = Queue.allocate_id r.requests in
          let p : PendingTimeoutRequest = record {
            request_id = request_id;
            connection = connection;
            member_id = id;
            nickname = nickname;
            seconds = seconds;
          } in
          (
            record r { requests = requests; timeout_requests = r.timeout_requests ++ p ∷ [] },
            ok (
                notify_host (HostNotice.timeout_request_pending request_id id nickname seconds)
                ∷ []),
          ))

  unfoldable pub timeout_requested :
      RoomActor L → ConnectionId → MemberId → Option ℕ → Effect L (List RoomAction)
  unfolding request_timeout name_of
  timeout_requested r connection id seconds =
      if id == 0 then (r, err (refuse PlaintextError.host_timeout_request)) else elim seconds [
        | none ↦ (r, err (refuse PlaintextError.timeout_request_length))
        | some s ↦ request_timeout r connection id s
      ]

  unfoldable pub timeout_changed :
      RoomActor L
      → ConnectionId
      → EncryptedEnvelope
      → Result (Option ℕ)
      → Effect L (List RoomAction)
  unfolding relay
  timeout_changed r connection e setting =
      if e.sender_id == 0
      then elim setting [
        | err x ↦ (r, err x)
        | ok seconds ↦ (
          record r { room_timeout = seconds },
          ok (relay r connection (Message.timeout_changed e)),
        )
      ]
      else (r, err (refuse PlaintextError.not_host))

  validated :
      RoomActor L
      → ConnectionId
      → EncryptedEnvelope
      → Validation.Result (Unit {0})
      → Effect L (List RoomAction)
  unfolding relay
  validated r connection e (Validation.Result.err x) =
      (r, err (refuse (PlaintextError.invalid_text x)))
  validated r connection e (Validation.Result.ok u) =
      (r, ok (relay r connection (Message.chat_message e)))

  unfoldable pub chat_text :
      RoomActor L → ConnectionId → EncryptedEnvelope → Option Text → Effect L (List RoomAction)
  unfolding validated
  chat_text r connection e none = (r, err (refuse PlaintextError.not_utf8))
  chat_text r connection e (some t) = validated r connection e (validate_chat_text t Limits.default)
