-- ===== src/Protocol/Frame/Canonical.antt =====
-- The decoder accepts no other form of a frame than the one `encode` writes.
use veilroom.Prelude.{
  All, Bytes, Option, [], ap, arith, drop, length, length-append, length-take_le, none, refl, some,
  sym, take, take-append-drop, ℕ, ◌%◌, ◌*◌, ◌++◌, ◌+◌, ◌/◌, ◌<◌, ◌∙◌, ◌∷◌, ◌≡◌, ◌≤◌,
}
use veilroom.Protocol.Ids.{MessageType, as_u8, from_u8}
use veilroom.Protocol.Frame.RoundTrip.{frame_bytes, encode_fits}
use veilroom.Protocol.Ids.Registry.{of_from_u8}
use veilroom.Protocol.Frame.{
  Frame, ok, took, round, encode, to_be_bytes32, from_be_bytes32, check_flags, check_type,
  parse_body, check_length, read_length,
}

abbrev pub IsByte : ℕ → Type 0
IsByte b = b < 256

abbrev pub AreBytes : Bytes → Type 0
AreBytes = All IsByte

check_flags-took :
    (flags : ℕ) (t : MessageType) (payload rest left : Bytes) (f : Frame)
    → check_flags flags t payload rest ≡ took f left
    → (flags ≡ 0) × (f ≡ record { message_type = t; payload = payload }) × (left ≡ rest)
unfolding check_flags
check_flags-took flags t payload rest left f h = ground arith

check_type-took :
    (id flags : ℕ) (payload rest left : Bytes) (f : Frame) (t : Option MessageType)
    → from_u8 id ≡ t
    → check_type id flags payload rest t ≡ took f left
    → (flags ≡ 0) × (id ≡ as_u8 f.message_type) × (f.payload ≡ payload) × (left ≡ rest)
unfolding check_type
check_type-took id flags payload rest left f none e h = absurd cc
check_type-took id flags payload rest left f (some t) e h =
    let (zero_flags, frame, tail) = check_flags-took flags t payload rest left f h in
    (
      zero_flags,
      of_from_u8 id t e ∙ ap (λ g. as_u8 g.message_type) (sym frame),
      ap (λ g. g.payload) frame,
      tail,
    )

parse_body-took :
    (body rest left : Bytes) (f : Frame)
    → parse_body body rest ≡ took f left
    → (body ≡ 1 ∷ as_u8 f.message_type ∷ 0 ∷ 0 ∷ f.payload) × (left ≡ rest)
unfolding parse_body
parse_body-took (version ∷ id ∷ f0 ∷ f1 ∷ payload) rest left f h =
    ground (arith, check_type-took id (f0 * 256 + f1) payload rest left f (from_u8 id) refl)
parse_body-took _ rest left f h = absurd cc

check_length-took :
    (m declared : ℕ) (body left : Bytes) (f : Frame)
    → check_length m declared body ≡ took f left
    → (declared ≡ length f.payload + 4)
      × (declared ≤ m)
      × (body ≡ (1 ∷ as_u8 f.message_type ∷ 0 ∷ 0 ∷ f.payload) ++ left)
unfolding check_length
check_length-took m declared body left f h = ground (
  arith,
  length-append (take declared body) (drop declared body),
  length-take_le declared body,
  take-append-drop declared body,
  parse_body-took (take declared body) (drop declared body) left f,
)

be_bytes_unique :
    (a b c d n : ℕ)
    → a < 256
    → b < 256
    → c < 256
    → d < 256
    → from_be_bytes32 a b c d ≡ n
    → to_be_bytes32 n ≡ a ∷ b ∷ c ∷ d ∷ []
unfolding from_be_bytes32 to_be_bytes32
be_bytes_unique a b c d n ha hb hc hd e =
    let wa : n / 0x1000000 % 256 ≡ a = omega arith in
    let wb : n / 0x10000 % 256 ≡ b = omega arith in
    let wc : n / 0x100 % 256 ≡ c = omega arith in
    let wd : n % 256 ≡ d = omega arith in rw (wa, wb, wc, wd) refl

read_length-took :
    (m : ℕ) (buf left : Bytes) (f : Frame)
    → AreBytes buf
    → read_length m buf ≡ took f left
    → (length f.payload + 4 ≤ m) × (buf ≡ frame_bytes f ++ left)
unfolding read_length to_be_bytes32
read_length-took m (a ∷ b ∷ c ∷ d ∷ body) left f (ha, (hb, (hc, (hd, hs)))) h =
    let (size, fits, tail) = check_length-took m (from_be_bytes32 a b c d) body left f h in
    let head = be_bytes_unique a b c d (length f.payload + 4) ha hb hc hd size in
    (
      omega arith,
      sym (
          ap (λ w. (w ++ (1 ∷ as_u8 f.message_type ∷ 0 ∷ 0 ∷ f.payload)) ++ left) head
          ∙ ap (λ t. a ∷ b ∷ c ∷ d ∷ t) (sym tail)),
    )
read_length-took m _ left f bs h = absurd cc

-- A frame is taken off a buffer of bytes only when it fits the frame limit and the buffer begins with
-- exactly the bytes that `encode` writes for it; what is left is the rest of the buffer.
pub round-took_canonical :
    (m : ℕ) (buf left : Bytes) (f : Frame)
    → AreBytes buf
    → round m buf ≡ took f left
    → (bytes : Bytes) × (encode m f ≡ ok bytes) × (buf ≡ bytes ++ left)
unfolding round
round-took_canonical m buf left f bs h =
    let (fits, split) = read_length-took m buf left f bs (ground arith) in
    (frame_bytes f, encode_fits m f fits, split)
