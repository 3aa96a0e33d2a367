-- ===== src/Protocol/Frame/Rounds.antt =====
-- One round of the decoder on a longer buffer, and what a round leaves.
use veilroom.Prelude.{
  Bool-cases, Bytes, Option, arith, drop, drop-append_le, inl, inr, length, length-append,
  length-drop, length-take_le, ltb, none, refl, some, take, take-append_le, ℕ, ◌*◌, ◌++◌, ◌+◌, ◌<◌,
  ◌∷◌, ◌≡◌, ◌≢◌, ◌≤◌,
}
use veilroom.Protocol.Ids.{MessageType, from_u8}
use veilroom.Protocol.Frame.{
  Round, break, fail, took, parse_body, check_type, check_length, read_length, round,
  from_be_bytes32,
}

-- A round, with more bytes behind what it left.
abbrev pub extend : Round → Bytes → Round
extend break b = break
extend (fail e) b = fail e
extend (took f rest) b = took f (rest ++ b)

check_type-extend :
    (id flags : ℕ) (payload rest b : Bytes) (t : Option MessageType)
    → check_type id flags payload (rest ++ b) t ≡ extend (check_type id flags payload rest t) b
unfolding check_type
check_type-extend id flags payload rest b none = refl
check_type-extend id flags payload rest b (some t) = ground arith

parse_body-extend :
    (body rest b : Bytes) → parse_body body (rest ++ b) ≡ extend (parse_body body rest) b
unfolding parse_body
parse_body-extend (version ∷ id ∷ f0 ∷ f1 ∷ payload) rest b =
    ground (arith, check_type-extend id (f0 * 256 + f1) payload rest b (from_u8 id))
parse_body-extend _ rest b = refl

check_length-extend :
    (max_frame_size declared : ℕ) (body b : Bytes)
    → check_length max_frame_size declared body ≢ break
    → check_length max_frame_size declared (body ++ b)
      ≡ extend (check_length max_frame_size declared body) b
unfolding check_length
check_length-extend m declared body b h = ground (
  arith,
  length-append body b,
  take-append_le declared body b,
  drop-append_le declared body b,
  parse_body-extend (take declared body) (drop declared body) b,
)

read_length-extend :
    (max_frame_size : ℕ) (buf b : Bytes)
    → read_length max_frame_size buf ≢ break
    → read_length max_frame_size (buf ++ b) ≡ extend (read_length max_frame_size buf) b
unfolding read_length
read_length-extend m (w ∷ x ∷ y ∷ z ∷ body) b h =
    check_length-extend m (from_be_bytes32 w x y z) body b h
read_length-extend m _ b h = absurd (h refl)

-- A round that does not wait for more bytes ignores those that come later.
pub round-extend :
    (max_frame_size : ℕ) (buf b : Bytes)
    → round max_frame_size buf ≢ break
    → round max_frame_size (buf ++ b) ≡ extend (round max_frame_size buf) b
unfolding round
round-extend m buf b h = ground (arith, length-append buf b, read_length-extend m buf b)

-- What a round leaves behind a frame is a tail of its input that is at least a header shorter, and a
-- round waits only for a buffer that holds less than a header and a largest frame.
abbrev pub Left : ℕ → ℕ → Round → Type 0
Left m n break = n < 8 + m
Left m n (fail e) = Unit
Left m n (took f rest) = length rest + 8 ≤ n

check_type-Left :
    (id flags : ℕ) (payload rest : Bytes) (t : Option MessageType) (m n : ℕ)
    → length rest + 8 ≤ n
    → Left m n (check_type id flags payload rest t)
unfolding check_type
check_type-Left id flags payload rest none m n h = tt
check_type-Left id flags payload rest (some t) m n h = ground arith

parse_body-Left :
    (body rest : Bytes) (m n : ℕ)
    → 4 ≤ length body
    → length rest + 8 ≤ n
    → Left m n (parse_body body rest)
unfolding parse_body
parse_body-Left (version ∷ id ∷ f0 ∷ f1 ∷ payload) rest m n k h =
    ground (arith, check_type-Left id (f0 * 256 + f1) payload rest (from_u8 id) m n h)
parse_body-Left _ rest m n k h = absurd (omega arith)

check_length-Left :
    (m declared n : ℕ) (body : Bytes)
    → length body + 4 ≡ n
    → Left m n (check_length m declared body)
unfolding check_length
check_length-Left m declared n body e = ground (
  arith,
  length-take_le declared body,
  length-drop declared body,
  parse_body-Left (take declared body) (drop declared body) m n,
)

pub round-Left : (m : ℕ) (buf : Bytes) → Left m (length buf) (round m buf)
unfolding round
round-Left m buf = elim (Bool-cases (ltb (length buf) 8)) [
  | inl short ↦ rw short (ground arith)
  | inr long ↦ rw long (read_length-Left buf (ground arith))
]
  where
    read_length-Left : (b : Bytes) → 8 ≤ length b → Left m (length b) (read_length m b)
    read_length-Left (w ∷ x ∷ y ∷ z ∷ body) h =
        check_length-Left m (from_be_bytes32 w x y z) _ body (omega arith)
    read_length-Left _ h = absurd (omega arith)
