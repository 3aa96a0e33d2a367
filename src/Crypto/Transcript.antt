-- ===== src/Crypto/Transcript.antt =====
-- crypto/transcript.rs: the byte strings that signatures cover.
pub mod Fields
pub mod Injective
use veilroom.Prelude.{
  Bool, Bytes, List, Text, [], as_bytes, if◌then◌else◌, length, text, to_be_bytes, ℕ, ◌++◌, ◌∷◌,
}

pub record TranscriptBuilder : Type 0 where
  pub buf : Bytes

abbrev new : TranscriptBuilder
new = record { buf = [] }

-- A method call.
infixl 20 ◌▷◌
abbrev pub ◌▷◌ {ℓ κ} : {A : Type ℓ} {B : Type κ} → A → (A → B) → B
x ▷ f = f x

fixed : Bytes → TranscriptBuilder → TranscriptBuilder
fixed b t = record { buf = t.buf ++ b }

u8 : ℕ → TranscriptBuilder → TranscriptBuilder
u8 value t = record { buf = t.buf ++ value ∷ [] }

u16 : ℕ → TranscriptBuilder → TranscriptBuilder
u16 value t = record { buf = t.buf ++ to_be_bytes 2 value }

u32 : ℕ → TranscriptBuilder → TranscriptBuilder
u32 value t = record { buf = t.buf ++ to_be_bytes 4 value }

u64 : ℕ → TranscriptBuilder → TranscriptBuilder
u64 value t = record { buf = t.buf ++ to_be_bytes 8 value }

-- The length as a `u32`, then the bytes.
bytes : Bytes → TranscriptBuilder → TranscriptBuilder
bytes b t = record { buf = (t.buf ++ to_be_bytes 4 (length b)) ++ b }

label : Text → TranscriptBuilder → TranscriptBuilder
unfolding bytes
label name t = bytes (as_bytes name) t

abbrev finish : TranscriptBuilder → Bytes
finish t = t.buf

abbrev pub host_hello_label : Text
host_hello_label = text "VEILROOM-HOST-HELLO-V1"

abbrev pub join_request_label : Text
join_request_label = text "VEILROOM-JOIN-REQUEST-V1"

abbrev pub room_event_label : Text
room_event_label = text "VEILROOM-ROOM-EVENT-V1"

abbrev pub chat_message_label : Text
chat_message_label = text "VEILROOM-CHAT-MESSAGE-V1"

-- The signed events of a room: `version room_session_id sequence epoch event_type body`.
unfoldable pub room_event_transcript : ℕ → Bytes → ℕ → ℕ → ℕ → Bytes → Bytes
unfolding label u8 u64 fixed bytes
room_event_transcript version room_session_id sequence epoch event_type body =
    new
    ▷ label room_event_label
    ▷ u8 version
    ▷ fixed room_session_id
    ▷ u64 sequence
    ▷ u64 epoch
    ▷ u8 event_type
    ▷ bytes body
    ▷ finish

unfoldable pub member_joined_body : ℕ → Text → Bytes → Bytes
unfolding u64 bytes fixed
member_joined_body member_id nickname ed25519_pubkey =
    new ▷ u64 member_id ▷ bytes (as_bytes nickname) ▷ fixed ed25519_pubkey ▷ finish

unfoldable pub member_gone_body : ℕ → Bytes
unfolding u64
member_gone_body member_id = new ▷ u64 member_id ▷ finish

-- `u8::from`.
abbrev pub flag_byte : Bool → ℕ
flag_byte b = if b then 1 else 0

unfoldable pub join_policy_body : Bool → Bytes
join_policy_body open_policy = flag_byte open_policy ∷ []

pub record SnapshotBodyMember : Type 0 where
  pub member_id : ℕ
  pub nickname : Text
  pub color_index : ℕ
  pub is_host : Bool
  pub ed25519_pubkey : Bytes

snapshot_member : SnapshotBodyMember → TranscriptBuilder → TranscriptBuilder
unfolding u64 bytes u8 fixed
snapshot_member m t =
    t
    ▷ u64 m.member_id
    ▷ bytes (as_bytes m.nickname)
    ▷ u8 m.color_index
    ▷ u8 (flag_byte m.is_host)
    ▷ fixed m.ed25519_pubkey

snapshot_members : List SnapshotBodyMember → TranscriptBuilder → TranscriptBuilder
unfolding snapshot_member
snapshot_members [] t = t
snapshot_members (m ∷ ms) t = snapshot_members ms (snapshot_member m t)

unfoldable pub member_snapshot_body : List SnapshotBodyMember → Bytes
unfolding u64 snapshot_members
member_snapshot_body members = new ▷ u64 (length members) ▷ snapshot_members members ▷ finish

pub record HostHelloTranscriptInput : Type 0 where
  pub version : ℕ
  pub onion_address : Text
  pub virtual_port : ℕ
  pub room_session_id : Bytes
  pub host_ed25519_pubkey : Bytes
  pub host_x25519_pubkey : Bytes
  pub client_nonce : Bytes
  pub server_nonce : Bytes
  pub token_hash : Bytes
  pub offered_version : ℕ
  pub client_features : ℕ

unfoldable pub host_hello_transcript : HostHelloTranscriptInput → Bytes
unfolding label u8 u16 u32 bytes fixed
host_hello_transcript input =
    new
    ▷ label host_hello_label
    ▷ u8 input.version
    ▷ bytes (as_bytes input.onion_address)
    ▷ u16 input.virtual_port
    ▷ fixed input.room_session_id
    ▷ fixed input.host_ed25519_pubkey
    ▷ fixed input.host_x25519_pubkey
    ▷ fixed input.client_nonce
    ▷ fixed input.server_nonce
    ▷ fixed input.token_hash
    ▷ u8 input.offered_version
    ▷ u32 input.client_features
    ▷ finish

pub record JoinRequestTranscriptInput : Type 0 where
  pub version : ℕ
  pub room_session_id : Bytes
  pub client_nonce : Bytes
  pub server_nonce : Bytes
  pub nickname : Text
  pub introduction_hash : Bytes
  pub participant_ed25519_pubkey : Bytes
  pub participant_x25519_pubkey : Bytes
  pub onion_address : Text
  pub token_hash : Bytes

unfoldable pub join_request_transcript : JoinRequestTranscriptInput → Bytes
unfolding label u8 bytes fixed
join_request_transcript input =
    new
    ▷ label join_request_label
    ▷ u8 input.version
    ▷ fixed input.room_session_id
    ▷ fixed input.client_nonce
    ▷ fixed input.server_nonce
    ▷ bytes (as_bytes input.nickname)
    ▷ fixed input.introduction_hash
    ▷ fixed input.participant_ed25519_pubkey
    ▷ fixed input.participant_x25519_pubkey
    ▷ bytes (as_bytes input.onion_address)
    ▷ fixed input.token_hash
    ▷ finish

-- crypto/chat.rs: the signed chat messages.
unfoldable pub chat_transcript : ℕ → Bytes → ℕ → ℕ → ℕ → ℕ → Bytes → Bytes → Bytes
unfolding label u8 u64 fixed bytes
chat_transcript version room_session_id epoch sender_id sender_sequence message_type nonce
      ciphertext =
    new
    ▷ label chat_message_label
    ▷ u8 version
    ▷ fixed room_session_id
    ▷ u64 epoch
    ▷ u64 sender_id
    ▷ u64 sender_sequence
    ▷ u8 message_type
    ▷ fixed nonce
    ▷ bytes ciphertext
    ▷ finish
