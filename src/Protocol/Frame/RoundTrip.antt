-- ===== src/Protocol/Frame/RoundTrip.antt =====
-- What `encode` writes, the decoder reads back.
use veilroom.Prelude.{
  Bytes, List, [], ap, arith, drop-length-append, length, length-append, refl, subst, suc, sym,
  take-length-append, u32_mod, zero, ℕ, ◌%◌, ◌++◌, ◌+◌, ◌/◌, ◌<◌, ◌∙◌, ◌∷◌, ◌≡◌, ◌≤◌, ◌⊎◌,
}
use mathlib.Core.List.{append_assoc, append-nil, flatten}
use veilroom.Protocol.Ids.{MessageType, as_u8}
use veilroom.Protocol.Ids.Registry.{from_u8-as_u8}
use veilroom.Protocol.Frame.{
  Frame, Result, ok, err, payload_too_large, took, round, new, feed_loop, feed, encode,
  encode_frame, to_be_bytes32, from_be_bytes32, check_flags, check_type, parse_body, check_length,
  read_length,
}
use veilroom.Protocol.Frame.Stream.{
  feed_all, feed_all-flatten, outcome, open_stream, feed_loop-took, took-shorter,
}

be_bytes32 :
    (n : ℕ)
    → n < u32_mod
    → from_be_bytes32 (n / 0x1000000 % 256) (n / 0x10000 % 256) (n / 0x100 % 256) (n % 256) ≡ n
unfolding from_be_bytes32
be_bytes32 n h = omega arith

parse_body-encoded :
    (t : MessageType) (payload rest : Bytes)
    → parse_body (1 ∷ as_u8 t ∷ 0 ∷ 0 ∷ payload) rest
      ≡ took (record { message_type = t; payload = payload }) rest
unfolding parse_body check_type check_flags
parse_body-encoded t payload rest = rw (from_u8-as_u8 t) refl

check_length-body :
    (m : ℕ) (body rest : Bytes)
    → 4 ≤ length body
    → length body ≤ m
    → check_length m (length body) (body ++ rest) ≡ parse_body body rest
unfolding check_length
check_length-body m body rest h l =
    ground
      (arith, length-append body rest, take-length-append body rest, drop-length-append body rest)

-- The bytes of a frame whose body fits the limit.
abbrev pub frame_bytes : Frame → Bytes
unfolding to_be_bytes32
frame_bytes f =
    to_be_bytes32 (length f.payload + 4) ++ (1 ∷ as_u8 f.message_type ∷ 0 ∷ 0 ∷ f.payload)

encode_lem :
    (m : ℕ) (f : Frame)
    → ((length f.payload + 4 ≤ m) × (encode m f ≡ ok (frame_bytes f)))
      ⊎ (encode m f ≡ err (payload_too_large (length f.payload + 4) m))
unfolding encode encode_frame to_be_bytes32
encode_lem m f = ground arith

pub encode_fits : (m : ℕ) (f : Frame) → length f.payload + 4 ≤ m → encode m f ≡ ok (frame_bytes f)
unfolding encode encode_frame to_be_bytes32
encode_fits m f h = ground arith

round-long : (m : ℕ) (buf : Bytes) → 8 ≤ length buf → round m buf ≡ read_length m buf
unfolding round
round-long m buf h = ground arith

round-frame_bytes :
    (m : ℕ) (f : Frame) (rest : Bytes)
    → m < u32_mod
    → length f.payload + 4 ≤ m
    → round m (frame_bytes f ++ rest) ≡ took f rest
unfolding read_length to_be_bytes32
round-frame_bytes m f rest small h =
    let n = length f.payload + 4 in
    let body = 1 ∷ as_u8 f.message_type ∷ 0 ∷ 0 ∷ f.payload in
    let read =
      check_length-body m body rest (omega arith) (omega arith)
      ∙ parse_body-encoded f.message_type f.payload rest in
    let declared : from_be_bytes32 (n / 0x1000000 % 256) (n / 0x10000 % 256) (n / 0x100 % 256)
          (n % 256)
        ≡ length body =
      be_bytes32 n (omega arith) ∙ omega arith in
    round-long m (frame_bytes f ++ rest) (omega arith)
    ∙ ap (λ k. check_length m k (body ++ rest)) declared
    ∙ read

-- A sender's frames, encoded one after the other.
unfoldable pub encode_all : ℕ → List Frame → Result Bytes
encode_all m [] = ok []
encode_all m (f ∷ fs) = elim (encode m f) [
  | err e ↦ err e
  | ok bytes ↦ elim (encode_all m fs) [ err e ↦ err e | ok more ↦ ok (bytes ++ more) ]
]

encode_all-cons :
    (m : ℕ) (f : Frame) (fs : List Frame) (bytes : Bytes)
    → encode_all m (f ∷ fs) ≡ ok bytes
    → (length f.payload + 4 ≤ m)
      × (more : Bytes) × (encode_all m fs ≡ ok more)
      × (bytes ≡ frame_bytes f ++ more)
unfolding encode_all
encode_all-cons m f fs bytes h = ground (arith, encode_lem m f)

feed_loop-nil : (k m : ℕ) (gs : List Frame) → feed_loop k m [] gs ≡ ([], ok gs)
unfolding feed_loop round
feed_loop-nil zero m gs = refl
feed_loop-nil (suc k) m gs = refl

feed_loop-encode_all :
    (k m : ℕ) (fs gs : List Frame) (bytes : Bytes)
    → m < u32_mod
    → encode_all m fs ≡ ok bytes
    → length bytes < k
    → feed_loop k m bytes gs ≡ ([], ok (gs ++ fs))
unfolding encode_all
feed_loop-encode_all k m [] gs bytes small e h =
    let none_left : [] ≡ bytes = cc in
    subst (λ b. feed_loop k m b gs ≡ ([], ok (gs ++ []))) none_left
      (feed_loop-nil k m gs ∙ ap (λ t. ([], ok t)) (sym (append-nil gs)))
feed_loop-encode_all zero m (f ∷ fs) gs bytes small e h = absurd (omega arith)
feed_loop-encode_all (suc k) m (f ∷ fs) gs bytes small e h =
    let (fits, more, rest, split) = encode_all-cons m f fs bytes e in
    let one = ap (round m) split ∙ round-frame_bytes m f more small fits in
    feed_loop-took k m bytes more f gs one
    ∙ feed_loop-encode_all k m fs (gs ++ f ∷ []) more small rest
        (omega (arith, took-shorter m bytes more f one))
    ∙ ap (λ t. ([], ok t)) (append_assoc gs (f ∷ []) fs)

-- When the frame limit fits the four bytes of the length field, what a sender encodes frame by frame
-- is decoded, in whatever chunks it arrives, to exactly the frames sent, in order, and the decoder is
-- then as it was at the start.
pub encode_all-feed_all :
    (m : ℕ) (frames : List Frame) (chunks : List Bytes)
    → m < u32_mod
    → encode_all m frames ≡ ok (flatten chunks)
    → feed_all (new m) chunks ≡ open_stream frames (new m)
unfolding new feed round
encode_all-feed_all m frames chunks small e =
    feed_all-flatten (new m) chunks refl
    ∙ ap (λ p. outcome (record { buf = p.0; max_frame_size = m }, p.1))
        (feed_loop-encode_all (suc (length (flatten chunks))) m frames [] (flatten chunks) small e
          (omega arith))
