-- ===== src/Tests/Wire.antt =====
-- Frames, identifiers, states, colours, limits and texts at concrete inputs.
use veilroom.Prelude.{
  Bytes, List, [], arith, false, length, refl, some, text, true, ◌++◌, ◌+◌, ◌<◌, ◌==◌, ◌↔◌, ◌∷◌,
  ◌≡◌, ◌≤◌, nat_eq, list_eq, pair_eq,
}
use mathlib.Core.List.{flatten}
use veilroom.Limits.{default}
use veilroom.Protocol.Ids.{
  MessageType, MessageClass, ErrorCode, as_u8, from_u8, error_as_u8, error_from_u8,
}
use veilroom.Protocol.Ids.Registry.{from_u8_iff}
use veilroom.Protocol.State.{accepts, active}
use veilroom.Protocol.State.Accepts.{accepts_once}
use veilroom.Protocol.Frame.{
  Frame, new, feed, encode, encode_frame, round, ok, to_be_bytes32, frame_header_len,
  from_be_bytes32,
}
use veilroom.Protocol.Frame.Stream.{
  feed_all, outcome, open_stream, feed_all-flatten, feed_buffer_bounded,
}
use veilroom.Protocol.Frame.RoundTrip.{encode_all, encode_all-feed_all}
use veilroom.Protocol.Frame.Canonical.{round-took_canonical}
use veilroom.Validation.{
  contains_control_char, sanitize_for_display, validate_nickname, collapse_spaces,
  is_unsafe_display_char,
}
use veilroom.Validation.Spaces.{is_tidy, validate_nickname-is_tidy}
use veilroom.Validation.Display.{sanitize_for_display-safe}

abbrev beat : Frame
beat = record { message_type = MessageType.keepalive; payload = 7 ∷ [] }

abbrev beat_bytes : Bytes
beat_bytes = 0 ∷ 0 ∷ 0 ∷ 5 ∷ 1 ∷ 0x80 ∷ 0 ∷ 0 ∷ 7 ∷ []

abbrev beat_chunks : List Bytes
beat_chunks = (0 ∷ 0 ∷ 0 ∷ []) ∷ (5 ∷ 1 ∷ 0x80 ∷ 0 ∷ []) ∷ (0 ∷ 7 ∷ []) ∷ []

feed_all-flatten_example :
    feed_all (new 16) beat_chunks ≡ outcome (feed (new 16) (flatten beat_chunks))
unfolding new round
feed_all-flatten_example = feed_all-flatten (new 16) beat_chunks refl

encode_all-feed_all_example : feed_all (new 16) beat_chunks ≡ open_stream (beat ∷ []) (new 16)
unfolding encode_all encode encode_frame as_u8 to_be_bytes32 flatten
encode_all-feed_all_example = encode_all-feed_all 16 (beat ∷ []) beat_chunks (omega arith) refl

feed_buffer_bounded_example : 3 < frame_header_len + 16
unfolding feed new round
feed_buffer_bounded_example =
    feed_buffer_bounded (new 16) (record { buf = 0 ∷ 0 ∷ 0 ∷ []; max_frame_size = 16 })
      (0 ∷ 0 ∷ 0 ∷ []) [] refl

round-took_canonical_example :
    (bytes : Bytes) × (encode 16 beat ≡ ok bytes) × (beat_bytes ++ 9 ∷ [] ≡ bytes ++ 9 ∷ [])
unfolding round from_u8 from_be_bytes32
round-took_canonical_example =
    round-took_canonical 16 (beat_bytes ++ 9 ∷ []) (9 ∷ []) beat (ground arith) refl

from_u8_iff_example :
    ((from_u8 0x40 ≡ some MessageType.chat_message) ↔ (0x40 ≡ as_u8 MessageType.chat_message))
    × ((error_from_u8 0x40 ≡ some ErrorCode.internal) ↔ (0x40 ≡ error_as_u8 ErrorCode.internal))
from_u8_iff_example = from_u8_iff 0x40 MessageType.chat_message ErrorCode.internal

accepts_once_example : active ≡ active
unfolding accepts
accepts_once_example = accepts_once active active MessageClass.chat (λ h. cc) refl refl

sanitize_for_display-safe_example :
    (contains_control_char (sanitize_for_display (0x1B ∷ 0x41 ∷ 0x0A ∷ [])) ≡ false)
    × (contains_control_char (0x1B ∷ 0x41 ∷ 0x0A ∷ []) ≡ false
        → sanitize_for_display (0x1B ∷ 0x41 ∷ 0x0A ∷ []) ≡ 0x1B ∷ 0x41 ∷ 0x0A ∷ [])
sanitize_for_display-safe_example = sanitize_for_display-safe (0x1B ∷ 0x41 ∷ 0x0A ∷ [])

validate_nickname-is_tidy_example :
    (is_tidy true (text "a b") ≡ true)
    × (1 ≤ length (text "a b"))
    × (length (text "a b") ≤ default.max_nickname_scalars)
    × (collapse_spaces (text "a b") ≡ text "a b")
unfolding validate_nickname is_unsafe_display_char
validate_nickname-is_tidy_example =
    validate_nickname-is_tidy (λ t. t) (λ c. c == 0x20) (text " a  b ") (text "a b") default refl
