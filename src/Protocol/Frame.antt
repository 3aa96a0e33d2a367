-- ===== src/Protocol/Frame.antt =====
-- protocol/frame.rs: the length-prefixed frames of a byte stream.
pub mod Rounds
pub mod Stream
pub mod RoundTrip
pub mod Canonical
use veilroom.Prelude.{
  Bytes, List, Option, [], drop, if◌then◌else◌, length, ltb, none, some, suc, take, zero, ℕ, ◌%◌,
  ◌*◌, ◌++◌, ◌+◌, ◌/◌, ◌==◌, ◌∷◌, nat_eq, list_eq, pair_eq,
}
use veilroom.Protocol.Ids.{MessageType, as_u8, from_u8}

abbrev pub frame_header_len : ℕ
frame_header_len = 8

abbrev pub length_field_len : ℕ
length_field_len = 4

abbrev pub min_frame_body_len : ℕ
min_frame_body_len = 4

abbrev pub protocol_major_version : ℕ
protocol_major_version = 1

pub data FrameError : Type 0 where
  frame_too_large payload_too_large : ℕ → ℕ → FrameError
  frame_too_short : ℕ → FrameError
  unexpected_eof : FrameError
  unsupported_version unknown_message_type non_zero_flags : ℕ → FrameError

pub data Result {ℓ} (A : Type ℓ) : Type ℓ where
  ok : A → Result A
  err : FrameError → Result A

pub record Frame : Type 0 where
  pub message_type : MessageType
  pub payload : Bytes

-- `u32::to_be_bytes`, `u16::to_be_bytes` and their inverses; the first drops what a `u32` cannot hold.
unfoldable pub to_be_bytes32 : ℕ → Bytes
to_be_bytes32 n = n / 0x1000000 % 256 ∷ n / 0x10000 % 256 ∷ n / 0x100 % 256 ∷ n % 256 ∷ []

unfoldable pub from_be_bytes32 : ℕ → ℕ → ℕ → ℕ → ℕ
from_be_bytes32 a b c d = a * 0x1000000 + b * 0x10000 + c * 0x100 + d

unfoldable pub encode_frame : ℕ → MessageType → Bytes → Result Bytes
unfolding to_be_bytes32
encode_frame max_frame_size message_type payload =
    let body_len = length payload + min_frame_body_len in
    if ltb max_frame_size body_len
    then err (payload_too_large body_len max_frame_size)
    else ok (
        to_be_bytes32 body_len
        ++ (protocol_major_version ∷ as_u8 message_type ∷ 0 ∷ 0 ∷ [])
        ++ payload)

unfoldable pub encode : ℕ → Frame → Result Bytes
encode max_frame_size f = encode_frame max_frame_size f.message_type f.payload

-- One round of the loop in `feed`: it breaks, returns an error, or takes a frame off the buffer.
pub data Round : Type 0 where
  break : Round
  fail : FrameError → Round
  took : Frame → Bytes → Round

check_flags : ℕ → MessageType → Bytes → Bytes → Round
check_flags flags message_type payload rest =
    if flags == 0
    then took (record { message_type = message_type; payload = payload }) rest
    else fail (non_zero_flags flags)

check_type : ℕ → ℕ → Bytes → Bytes → Option MessageType → Round
unfolding check_flags
check_type id flags payload rest none = fail (unknown_message_type id)
check_type id flags payload rest (some t) = check_flags flags t payload rest

-- The body of a frame, which has at least four bytes, and what follows it.
parse_body : Bytes → Bytes → Round
unfolding check_type
parse_body (version ∷ id ∷ f0 ∷ f1 ∷ payload) rest =
    if version == protocol_major_version
    then check_type id (f0 * 256 + f1) payload rest (from_u8 id)
    else fail (unsupported_version version)
parse_body _ rest = break

-- The tests of the declared length, with `body` the buffer behind the length field.
check_length : ℕ → ℕ → Bytes → Round
unfolding parse_body
check_length max_frame_size declared body =
    if ltb max_frame_size declared
    then fail (frame_too_large declared max_frame_size)
    else if ltb declared min_frame_body_len
    then fail (frame_too_short min_frame_body_len)
    else if ltb (length_field_len + length body) (length_field_len + declared)
    then break
    else parse_body (take declared body) (drop declared body)

read_length : ℕ → Bytes → Round
unfolding check_length from_be_bytes32
read_length max_frame_size (a ∷ b ∷ c ∷ d ∷ body) =
    check_length max_frame_size (from_be_bytes32 a b c d) body
read_length max_frame_size _ = break

unfoldable pub round : ℕ → Bytes → Round
unfolding read_length
round max_frame_size buf =
    if ltb (length buf) frame_header_len then break else read_length max_frame_size buf

pub record FrameDecoder : Type 0 where
  pub buf : Bytes
  pub max_frame_size : ℕ

unfoldable pub new : ℕ → FrameDecoder
new max_frame_size = record { buf = []; max_frame_size = max_frame_size }

-- The loop of `feed`, on fuel: a round takes at least eight bytes off the buffer.
pub feed_loop : ℕ → ℕ → Bytes → List Frame → Bytes × Result (List Frame)
feed_loop zero max_frame_size buf frames = (buf, ok frames)
feed_loop (suc fuel) max_frame_size buf frames = elim (round max_frame_size buf) [
  | break ↦ (buf, ok frames)
  | fail e ↦ (buf, err e)
  | took f rest ↦ feed_loop fuel max_frame_size rest (frames ++ f ∷ [])
]

unfoldable pub feed : FrameDecoder → Bytes → FrameDecoder × Result (List Frame)
unfolding feed_loop round
feed d bytes =
    let (buf, result) =
      feed_loop (suc (length (d.buf ++ bytes))) d.max_frame_size (d.buf ++ bytes) [] in
    (record d { buf = buf }, result)

unfoldable pub finish : FrameDecoder → Result (Unit {0})
finish d = elim d.buf [ [] ↦ ok tt | b ∷ bs ↦ err unexpected_eof ]
