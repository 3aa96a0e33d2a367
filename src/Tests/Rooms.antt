-- ===== src/Tests/Rooms.antt =====
-- A room at concrete inputs.
use veilroom.Prelude.{
  Bytes, List, [], arith, contains, false, leb, ltb, none, refl, some, text, ℕ, ◌+◌, ◌==◌, ◌∷◌, ◌≡◌,
  nat_eq, list_eq, pair_eq,
}
use veilroom.Event.{RoomEvent, EncryptedEnvelope, MemberRef, HostCommand}
use veilroom.Admission.{JoinPolicy}
use veilroom.Prelude.HashMap
use veilroom.Prelude.Texts.{utf8_len, len_utf8}
use veilroom.Room.Member.{by_id}
use veilroom.Chat.Replay.{last_accepted}
use veilroom.Room.Actor.Relay.{chat_text, relay, opened, key_in_use}
use veilroom.Room.Actor.Receive.{chat_plaintext}
use veilroom.Chat.Replay
use veilroom.Room.Member
use veilroom.Room.Connections
use veilroom.Admission.Queue.{with_capacity}
use veilroom.Validation.{
  validate_nickname, validate_chat_text, contains_control_char, is_unsafe_display_char,
}
use veilroom.Limits.{default, default_timeouts}
use veilroom.Protocol.State.{RoomState}
use veilroom.Room.Connections.{member}
use veilroom.Room.Environment.{Environment, Entropy, Opened}
use veilroom.Room.Action.{RoomAction, send_to, Message}
use veilroom.Room.Actor.{RoomActor, RoomError, ok, err, PendingEpoch}
use veilroom.Room.Actor.Transition.{remove_member, begin_epoch_transition, close_room}
use veilroom.Room.Actor.Transition.Begin.{Began, member_ids, begin_epoch_transition-Began}
use veilroom.Prelude.Words.{succ64}
use veilroom.Room.Member.Unique.{IsValid, Differs}
use veilroom.Room.Actor.Transition.Rekey.{remaining_room, remove_member_rekeys}
use veilroom.Room.Actor.Transition.Acks.{ack_all, Acked, ack_all-Acked}
use veilroom.Room.Actor.Admit.{set_policy, on_join_requested}
use veilroom.Room.Actor.Admit.Closed.{IsClosed, set_policy_locked}
use veilroom.Room.Actor.Receive.{check_and_relay}
use veilroom.Room.Actor.Receive.Replay.{check_and_relay_once}
use veilroom.Room.Actor.Handle.{create, start, handle_event_at}
use veilroom.Room.Actor.Handle.Ended.{handle_event_at-close_room}
use veilroom.Room.Actor.Handle.Reachable.{IsSound, run, run-IsSound}
use veilroom.Tests.Members.{table, host, guest}
use veilroom.Tests.Waiting.{applicant}

-- A key of forty-eight bytes for every member, envelopes that hold their ciphertext, and a limiter that
-- counts to five.
abbrev sealed : Bytes
sealed =
    0 ∷ 0 ∷ 0 ∷ 0 ∷ 0 ∷ 0 ∷ 0 ∷ 0 ∷ 0 ∷ 0 ∷ 0 ∷ 0 ∷ 0 ∷ 0 ∷ 0 ∷ 0 ∷ 0 ∷ 0 ∷ 0 ∷ 0 ∷ 0 ∷ 0 ∷ 0 ∷ 0
    ∷ 0 ∷ 0 ∷ 0 ∷ 0 ∷ 0 ∷ 0 ∷ 0 ∷ 0 ∷ 0 ∷ 0 ∷ 0 ∷ 0 ∷ 0 ∷ 0 ∷ 0 ∷ 0 ∷ 0 ∷ 0 ∷ 0 ∷ 0 ∷ 0 ∷ 0 ∷ 0 ∷ 0
    ∷ []

abbrev plain : Environment ℕ
plain = record {
  new_limiter = λ burst rate. 0;
  allow = λ n now. (n + 1, ltb n 5);
  is_abusive = λ n k. leb k n;
  try_wrap_key_for = λ secret key session id. some key;
  wrap_epoch_key = λ wrap key epoch session nonce. some (nonce, sealed);
  sign = λ secret bytes. bytes;
  room_event_transcript = λ version session sequence epoch type body. body;
  member_joined_body = λ id nickname key. id ∷ nickname;
  member_gone_body = λ id. id ∷ [];
  join_policy_body = λ b. [];
  member_snapshot_body = λ ms. [];
  open_envelope = λ key pub_key v session epoch id sequence type nonce ciphertext signature.
      Opened.plaintext ciphertext;
  nfc = λ t. t;
  is_whitespace = λ c. c == 0x20;
  from_utf8 = λ bytes. some bytes;
  describe = λ e. text "refused";
}

abbrev dice : Entropy
dice = record { epoch_key = some (5 ∷ []); token = some (6 ∷ []); nonce = λ id. id ∷ [] }

abbrev waiting : PendingEpoch
waiting = record { epoch = 1; key = 5 ∷ []; awaiting = 0 ∷ []; started_at = 0 }

abbrev room : RoomActor ℕ
room = record {
  session_id = 9 ∷ [];
  token = 6 ∷ [];
  state = RoomState.open_room;
  policy = JoinPolicy.open_joins;
  members = table;
  connections = record {
    entries = (0, record { id = 0; password_verified = false; role = member 0 }) ∷ [];
  };
  requests = record { limit = 8; next_id = 0; requests = [] };
  timeout_requests = [];
  room_timeout = none;
  host_connection = 0;
  host_identity = 1 ∷ [];
  timeouts = default_timeouts;
  epoch = 1;
  epoch_key = some (5 ∷ []);
  pending_epoch = none;
  room_sequence = 1;
  chat_replay = record { last = [] };
  rate_limits = [];
  pending_membership = [];
  now = 0;
}

abbrev turning : RoomActor ℕ
turning = record room { state = RoomState.epoch_transition; pending_epoch = some waiting }

abbrev hello : EncryptedEnvelope
hello = record {
  epoch = 1;
  sender_id = 0;
  sender_sequence = 3;
  nonce = [];
  ciphertext = text "hello";
  signature = [];
}

begin_epoch_transition-Began_example :
    Began plain room [] dice (begin_epoch_transition plain room [] dice)
begin_epoch_transition-Began_example = begin_epoch_transition-Began plain room [] dice

ack_all-Acked_example : Acked waiting turning [] (ack_all turning 1 (7 ∷ 0 ∷ []))
unfolding Connections.member_id HashMap.get
ack_all-Acked_example = ack_all-Acked turning waiting (7 ∷ 0 ∷ []) refl (λ h. cc)

set_policy_locked_example :
    let r' = (set_policy plain room JoinPolicy.locked).0 in
    IsClosed r'
    × (r'.state ≡ RoomState.locked)
    × (on_join_requested r' 4 applicant ≡ (r', err RoomError.policy_locked))
set_policy_locked_example = set_policy_locked plain room 4 applicant

handle_event_at-close_room_example :
    handle_event_at plain (close_room room).0 (RoomEvent.client_connected 4) 8 dice
    ≡ (record (close_room room).0 { now = 8 }, err RoomError.room_closed)
handle_event_at-close_room_example =
    handle_event_at-close_room plain room (RoomEvent.client_connected 4) 8 dice

abbrev heard : RoomActor ℕ
heard = record room { chat_replay = record { last = ((0, 1), 3) ∷ [] } }

check_and_relay_once_example :
    check_and_relay plain heard 4 0x41 hello ≡ (heard, err (RoomError.replay_rejected 0 3))
unfolding check_and_relay last_accepted chat_plaintext by_id Replay.accept chat_text
    validate_chat_text contains_control_char is_unsafe_display_char relay HashMap.get HashMap.insert
    opened key_in_use utf8_len len_utf8
check_and_relay_once_example =
    check_and_relay_once plain room heard 0 4 0x40 0x41 hello hello [] refl refl refl (omega arith)

abbrev events : List (RoomEvent × ℕ × Entropy)
events =
    (RoomEvent.epoch_ack 0 1, 1, dice)
    ∷ (RoomEvent.client_connected 4, 2, dice)
    ∷ (RoomEvent.host_command (HostCommand.kick (MemberRef.id 0)), 3, dice)
    ∷ []

abbrev created_room : RoomActor ℕ
created_room = record room {
  state = RoomState.creating;
  members = record { limit = 16; next_id = 1; members = host ∷ [] };
  connections = record { entries = [] };
  epoch = 0;
  epoch_key = none;
  room_sequence = 0;
}

run-IsSound_example : IsSound (run plain (start plain created_room dice).0 events).members
unfolding create Member.add_host Member.new with_capacity Connections.new Replay.new
    validate_nickname is_unsafe_display_char
run-IsSound_example =
    run-IsSound plain default 0 (text "host") (1 ∷ []) (1 ∷ []) (2 ∷ []) default_timeouts
      (some (9 ∷ [])) (some (6 ∷ [])) created_room dice events (omega arith) (omega arith) refl

abbrev pair : RoomActor ℕ
pair = record room { members = record { limit = 2; next_id = 2; members = host ∷ guest ∷ [] } }

pair-Differs : Differs host guest
pair-Differs = record {
  ids = λ h. absurd (omega arith);
  nicknames = λ h. cc;
  connections = λ h. absurd (omega arith);
  ed25519 = λ h. cc;
  x25519 = λ h. cc;
}

pair-IsValid : IsValid pair.members
pair-IsValid = record {
  unique = ((pair-Differs, tt), (tt, tt));
  issued = (
    record { below = omega arith; host = refl },
    (record { below = omega arith; host = refl }, tt),
  );
  bounded = omega arith;
  started = omega arith;
}

abbrev wraps : List RoomAction
wraps = send_to 0 (Message.epoch_wrap 2 (0 ∷ []) sealed) ∷ []

remove_member_rekeys_example :
    Began plain
      (remaining_room pair 1)
      []
      dice
      ((remove_member plain pair 1 0x21 [] dice).0, ok wraps)
    × (contains (member_ids (remaining_room pair 1).members.members) 1 ≡ false)
unfolding remove_member begin_epoch_transition Member.remove by_id succ64
remove_member_rekeys_example =
    remove_member_rekeys plain pair 1 0x21 [] dice guest (remove_member plain pair 1 0x21 [] dice).0
      wraps pair-IsValid refl
