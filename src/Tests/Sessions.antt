-- ===== src/Tests/Sessions.antt =====
-- Sessions, envelopes and transcripts at concrete inputs, over primitives that are easy to follow: a
-- signature shows key and message, and a ciphertext is the message and a tag of zeros.
use veilroom.Prelude.{
  Bytes, List, [], arith, beq_self, false, length, refl, some, take, text, true, ℕ, ◌++◌, ◌-◌, ◌==◌,
  ◌∷◌, ◌≡◌, nat_eq, list_eq, pair_eq,
}
use veilroom.Validation.{is_unsafe_display_char, validate_nickname}
use veilroom.Chat.Session.Install.{recolor_member}
use veilroom.Prelude.HashMap
use veilroom.Crypto.Transcript.{chat_transcript, room_event_transcript, member_gone_body}
use veilroom.Crypto.Envelope.{open_envelope}
use veilroom.Chat.Replay.{last_accepted}
use veilroom.Chat.Replay.History.{Above}
use veilroom.Command.Color.{ColorChoice}
use veilroom.Crypto.Identity.{Identity, ed25519_pubkey, verify_ed25519}
use veilroom.Crypto.Primitives.{Primitives}
use veilroom.Crypto.Transcript.Injective.{Statement, transcript-injective}
use veilroom.Event.{EncryptedEnvelope}
use veilroom.Room.Action.{Message}
use veilroom.Chat.Session.{
  install_member, msg_color, member, ChatSession, ChatError, MemberView, ok, err, new, msg_chat,
}
use veilroom.Chat.Session.Authentic.{Verdict, open_message-Verdict, open_message_once}
use veilroom.Chat.Session.Calls.{Call, AreAllowed, run, handled, run-new-IsTable, handled-Above}
use veilroom.Chat.Session.Membership.{handle_membership_message}
use veilroom.Chat.Session.Open.{open_message}
use veilroom.Chat.Session.Order.{Moves, handle_membership_message-Moves}
use veilroom.Chat.Session.Speech.{Speech}
use veilroom.Chat.Session.Table.{IsTable}

abbrev tag : Bytes
tag = 0 ∷ 0 ∷ 0 ∷ 0 ∷ 0 ∷ 0 ∷ 0 ∷ 0 ∷ 0 ∷ 0 ∷ 0 ∷ 0 ∷ 0 ∷ 0 ∷ 0 ∷ 0 ∷ []

abbrev clear : Primitives
clear = record {
  ed25519_public = λ key. key;
  ed25519_sign = λ key message. key ++ message;
  ed25519_verify = λ key message signature. signature == key ++ message;
  x25519_public = λ key. key;
  diffie_hellman = λ a b. [];
  was_contributory = λ shared. true;
  hkdf = λ salt key info. salt;
  encrypt = λ key nonce aad message. some (message ++ tag);
  decrypt = λ key nonce aad ciphertext. some (take (length ciphertext - 16) ciphertext);
}

abbrev alice_keys : Identity
alice_keys = record { ed25519 = 7 ∷ []; x25519 = 8 ∷ [] }

abbrev alice_view : MemberView
alice_view = record {
  member_id = 1;
  nickname = text "alice";
  color = ColorChoice.white;
  is_host = false;
  ed25519_pubkey = 7 ∷ [];
}

abbrev session_of : ℕ → ChatSession
session_of n = record {
  room_session_id = 5 ∷ [];
  host_ed25519_pubkey = 9 ∷ [];
  host_x25519_pubkey = 6 ∷ [];
  member_id = n;
  current_epoch = some (3, 4 ∷ []);
  sender_sequence = 0;
  members = alice_view ∷ [];
  replay = record { last = [] };
  last_room_sequence = some 2;
  join_policy_open = true;
}

abbrev hi_bytes : Bytes
hi_bytes = text "hi" ++ tag

-- The chat message "hi" of alice, with the first sequence.
abbrev greeting : EncryptedEnvelope
greeting = record {
  epoch = 3;
  sender_id = 1;
  sender_sequence = 1;
  nonce = [];
  ciphertext = hi_bytes;
  signature = 7 ∷ chat_transcript 1 (5 ∷ []) 3 1 1 msg_chat [] hi_bytes;
}

open_message-Verdict_example :
    Verdict clear
      (session_of 2)
      msg_chat
      greeting
      (open_message clear (session_of 2) msg_chat greeting)
open_message-Verdict_example = open_message-Verdict clear (session_of 2) msg_chat greeting

greeting_opens : (open_message clear (session_of 2) msg_chat greeting).1 ≡ ok (text "hi")
unfolding open_message member last_accepted HashMap.get open_envelope verify_ed25519
greeting_opens = rw (beq_self (7 ∷ chat_transcript 1 (5 ∷ []) 3 1 1 msg_chat [] hi_bytes)) refl

open_message_once_example :
    let s' = (open_message clear (session_of 2) msg_chat greeting).0 in
    open_message clear s' msg_color greeting ≡ (s', err (ChatError.replay_rejected 1 1))
open_message_once_example =
    open_message_once clear (session_of 2) msg_chat greeting (text "hi") greeting_opens msg_color
      greeting refl refl (omega arith)

-- The host announces that alice left.
abbrev farewell : Message
farewell =
    Message.member_left
      (record {
        sequence = 3;
        epoch = 3;
        signature = 9 ∷ room_event_transcript 1 (5 ∷ []) 3 3 0x21 (member_gone_body 1);
      })
      1

handle_membership_message-Moves_example :
    Moves
      (session_of 2)
      3
      (handle_membership_message (λ t. t) (λ c. c == 0x20) clear (session_of 2) farewell)
handle_membership_message-Moves_example =
    handle_membership_message-Moves (λ t. t) (λ c. c == 0x20) clear (session_of 2) farewell

abbrev calls : List Call
calls =
    Call.membership farewell
    ∷ Call.hears (Message.chat_message greeting)
    ∷ Call.membership farewell
    ∷ []

handled-Above_example :
    Above (some 2) (handled (λ t. t) (λ c. c == 0x20) clear (session_of 2) calls)
handled-Above_example = handled-Above (λ t. t) (λ c. c == 0x20) clear (session_of 2) calls

-- The host's own view.
abbrev host_view : MemberView
host_view = record {
  member_id = 0;
  nickname = text "bob";
  color = ColorChoice.white;
  is_host = true;
  ed25519_pubkey = 6 ∷ [];
}

-- The host's session installs its own view, takes another colour, installs alice, removes her and
-- hears that she left.
abbrev host_calls : List Call
host_calls =
    Call.installs host_view
    ∷ Call.recolors 0 ColorChoice.red
    ∷ Call.installs alice_view
    ∷ Call.removes 1
    ∷ Call.membership farewell
    ∷ []

abbrev new_host : ChatSession
new_host = new (5 ∷ []) (9 ∷ []) (6 ∷ []) 0

host_calls-AreAllowed : AreAllowed (λ t. t) (λ c. c == 0x20) clear new_host host_calls
unfolding new install_member recolor_member member validate_nickname is_unsafe_display_char
host_calls-AreAllowed = (((refl, refl), refl), (tt, (((refl, refl), refl), (tt, (tt, tt)))))

run-new-IsTable_example :
    IsTable
      (λ t. t)
      (λ c. c == 0x20)
      (run (λ t. t) (λ c. c == 0x20) clear new_host host_calls).members
run-new-IsTable_example =
    run-new-IsTable (λ t. t) (λ c. c == 0x20) clear (5 ∷ []) (9 ∷ []) (6 ∷ []) 0 host_calls
      host_calls-AreAllowed

abbrev key_32 : Bytes
key_32 = tag ++ tag

abbrev signed_leave : Statement
signed_leave = Statement.room_event 1 key_32 3 3 0x21 (1 ∷ [])

transcript-injective_example : signed_leave ≡ signed_leave
transcript-injective_example =
    transcript-injective signed_leave signed_leave (omega arith) (omega arith) refl
