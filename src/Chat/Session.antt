-- ===== src/Chat/Session.antt =====
-- chat/session.rs: the chat state of one connected member, which sends, opens, and follows the signed
-- events of the room.
pub mod Keys
pub mod Send
pub mod Open
pub mod Membership
pub mod Authentic
pub mod Delivery
pub mod Speech
pub mod Table
pub mod Follow
pub mod Install
pub mod Order
pub mod Calls
use veilroom.Prelude.{
  Bool, Bytes, List, Option, Text, [], any, false, find, get_or, if◌then◌else◌, leb, map, none, not,
  retain, some, true, ℕ, ◌&&◌, ◌++◌, ◌==◌, ◌∷◌, nat_eq, list_eq, pair_eq,
}
use veilroom.Chat.Replay
use veilroom.Chat.Replay.{ReplayTracker, accept, last_accepted, retain_epoch}
use veilroom.Command.Color
use veilroom.Command.Color.{ColorChoice, as_index, from_index}
use veilroom.Event.{MemberId}
use veilroom.Room.Action.{SnapshotMember}
use veilroom.Validation
use veilroom.Validation.{ValidationError, validate_chat_text, validate_nickname}

abbrev pub msg_chat : ℕ
msg_chat = 0x40

abbrev pub msg_color : ℕ
msg_color = 0x41

abbrev pub msg_timeout_request : ℕ
msg_timeout_request = 0x42

abbrev pub msg_timeout_changed : ℕ
msg_timeout_changed = 0x43

abbrev pub max_message_timeout_seconds : ℕ
max_message_timeout_seconds = 3600

-- The texts of `ChatError::InvalidPlaintext`.
pub data PlaintextError : Type 0 where
  invalid_text : ValidationError → PlaintextError
  not_utf8 color_length timeout_request_length timeout_setting_length : PlaintextError
  not_host invalid_flag timeout_range : PlaintextError
  duplicate_member not_membership : PlaintextError
  snapshot_omits_self snapshot_too_large snapshot_host snapshot_duplicates : PlaintextError

-- chat/mod.rs
pub data ChatError : Type 0 where
  no_epoch_key invalid_signature invalid_ciphertext : ChatError
  old_epoch replay_rejected : ℕ → ℕ → ChatError
  unknown_sender unknown_color : ℕ → ChatError
  invalid_plaintext : PlaintextError → ChatError

pub data Result {ℓ} (A : Type ℓ) : Type ℓ where
  ok : A → Result A
  err : ChatError → Result A

abbrev pub bind {ℓ κ} : {A : Type ℓ} {B : Type κ} → Result A → (A → Result B) → Result B
bind (ok a) f = f a
bind (err e) f = err e

pub record MemberView : Type 0 where
  pub member_id : MemberId
  pub nickname : Text
  pub color : ColorChoice
  pub is_host : Bool
  pub ed25519_pubkey : Bytes

pub record ChatSession : Type 0 where
  pub room_session_id : Bytes
  pub host_ed25519_pubkey : Bytes
  pub host_x25519_pubkey : Bytes
  pub member_id : MemberId
  pub current_epoch : Option (ℕ × Bytes)
  pub sender_sequence : ℕ
  pub members : List MemberView
  pub replay : ReplayTracker
  pub last_room_sequence : Option ℕ
  pub join_policy_open : Bool

unfoldable pub new : Bytes → Bytes → Bytes → MemberId → ChatSession
unfolding Replay.new
new room_session_id host_ed25519_pubkey host_x25519_pubkey member_id = record {
  room_session_id = room_session_id;
  host_ed25519_pubkey = host_ed25519_pubkey;
  host_x25519_pubkey = host_x25519_pubkey;
  member_id = member_id;
  current_epoch = none;
  sender_sequence = 0;
  members = [];
  replay = Replay.new;
  last_room_sequence = none;
  join_policy_open = true;
}

-- A method that can fail: the session after it, whether it succeeds or not, and its result.
abbrev pub Effect : Type 0 → Type 0
Effect A = ChatSession × Result A

-- `current_epoch.is_some_and(|current| epoch <= current)`
is_at_least : Option (ℕ × Bytes) → ℕ → Bool
is_at_least none epoch = false
is_at_least (some (current, key)) epoch = leb epoch current

unfoldable pub install_epoch : ChatSession → ℕ → Bytes → ChatSession
unfolding is_at_least
install_epoch s epoch key =
    if is_at_least s.current_epoch epoch
    then s
    else record s { current_epoch = some (epoch, key); replay = retain_epoch s.replay epoch }

unfoldable pub member : ChatSession → MemberId → Option MemberView
member s member_id = find (λ m. m.member_id == member_id) s.members

-- The first view with the id of the new one is replaced.
replace_view : List MemberView → MemberView → List MemberView
replace_view [] view = []
replace_view (m ∷ ms) view =
    if m.member_id == view.member_id then view ∷ ms else m ∷ replace_view ms view

unfoldable pub install_member : ChatSession → MemberView → ChatSession
unfolding replace_view
install_member s view =
    if any (λ m. m.member_id == view.member_id) s.members
    then record s { members = replace_view s.members view }
    else record s { members = s.members ++ view ∷ [] }

unfoldable pub remove_member : ChatSession → MemberId → ChatSession
remove_member s member_id = record s {
  members = retain (λ m. not (m.member_id == member_id)) s.members;
}

unfoldable pub view_of : SnapshotMember → MemberView
view_of m = record {
  member_id = m.member_id;
  nickname = m.nickname;
  color = get_or (from_index m.color) Color.default;
  is_host = m.is_host;
  ed25519_pubkey = m.ed25519_pubkey;
}

unfoldable pub install_snapshot : ChatSession → List SnapshotMember → ChatSession
unfolding view_of
install_snapshot s members = record s { members = map view_of members }

unfoldable pub validate_timeout_seconds : ℕ → Result (Unit {0})
validate_timeout_seconds seconds =
    if leb 1 seconds && leb seconds max_message_timeout_seconds
    then ok tt
    else err (invalid_plaintext timeout_range)

-- `map_err` to `InvalidPlaintext`, with the text of the error.
abbrev pub valid {ℓ} : {A : Type ℓ} → Validation.Result A → Result (Unit {0})
valid (Validation.Result.ok a) = ok tt
valid (Validation.Result.err e) = err (invalid_plaintext (invalid_text e))
