-- ===== src/Prelude/Utf8.antt =====
-- UTF-8: `str::as_bytes` and `String::from_utf8`.
use Prim.Native.Nat.{ℕ, ◌+◌, ◌-◌, ◌*◌, ◌/◌, ◌%◌, ◌≤◌, ◌<◌}
use mathlib.Core.Path.{◌≡◌, refl, ap, sym, ◌∙◌}
use mathlib.Core.Bool.{Bool, true, ◌&&◌, ◌||◌}
use mathlib.Core.Logic.{inl, inr}
use mathlib.Core.List.{[], ◌∷◌, ◌++◌}
use mathlib.Core.Option.{Option, none, some}
use native.Mathlib.Omega.{arith}
use veilroom.Prelude.Tests.{ltb, leb, if◌then◌else◌, ltb→lt, Bool-cases}
use veilroom.Prelude.Lists.{length, All}
use veilroom.Prelude.Texts.{Text, Bytes, len_utf8, utf8_len}

-- `char::encode_utf8`.
unfoldable pub encode_utf8 : ℕ → Bytes
encode_utf8 c =
    if ltb c 0x80
    then c ∷ []
    else if ltb c 0x800
    then (0xC0 + c / 64) ∷ (0x80 + c % 64) ∷ []
    else if ltb c 0x10000
    then (0xE0 + c / 4096) ∷ (0x80 + c / 64 % 64) ∷ (0x80 + c % 64) ∷ []
    else (0xF0 + c / 262144) ∷ (0x80 + c / 4096 % 64) ∷ (0x80 + c / 64 % 64) ∷ (0x80 + c % 64) ∷ []

unfoldable pub as_bytes : Text → Bytes
as_bytes [] = []
as_bytes (c ∷ cs) = encode_utf8 c ++ as_bytes cs

-- A decoder waits for the first byte of a scalar value, or for one to three more bytes of one, whose
-- bits so far are at hand.
pub data Decoder : Type 0 where
  first : Decoder
  last_of_two : ℕ → Decoder
  second_of_three last_of_three : ℕ → Decoder
  second_of_four third_of_four last_of_four : ℕ → Decoder

pub data Step : Type 0 where
  emit : ℕ → Step
  wait : Decoder → Step
  bad : Step

is_continuation : ℕ → Bool
is_continuation b = leb 0x80 b && ltb b 0xC0

-- A value in its shortest form that is not a surrogate and not above the largest scalar value.
finish : ℕ → ℕ → Step
finish least c =
    if leb least c && ltb c 0x110000 && (ltb c 0xD800 || leb 0xE000 c) then emit c else bad

first_byte : ℕ → Step
first_byte b =
    if ltb b 0x80
    then emit b
    else if leb 0xC0 b && ltb b 0xE0
    then wait (last_of_two (b - 0xC0))
    else if leb 0xE0 b && ltb b 0xF0
    then wait (second_of_three (b - 0xE0))
    else if leb 0xF0 b && ltb b 0xF8
    then wait (second_of_four (b - 0xF0))
    else bad

next_byte : Decoder → ℕ → Step
unfolding finish
next_byte first c = bad
next_byte (last_of_two bits) c = finish 0x80 (bits * 64 + c)
next_byte (second_of_three bits) c = wait (last_of_three (bits * 64 + c))
next_byte (last_of_three bits) c = finish 0x800 (bits * 64 + c)
next_byte (second_of_four bits) c = wait (third_of_four (bits * 64 + c))
next_byte (third_of_four bits) c = wait (last_of_four (bits * 64 + c))
next_byte (last_of_four bits) c = finish 0x10000 (bits * 64 + c)

step : Decoder → ℕ → Step
unfolding first_byte next_byte is_continuation
step first b = first_byte b
step d b = if is_continuation b then next_byte d (b - 0x80) else bad

cons_text : ℕ → Option Text → Option Text
cons_text c none = none
cons_text c (some cs) = some (c ∷ cs)

decode : Bytes → Decoder → Option Text
unfolding step cons_text
decode [] first = some []
decode [] d = none
decode (b ∷ bs) d = elim (step d b) [
  | emit c ↦ cons_text c (decode bs first)
  | wait d' ↦ decode bs d'
  | bad ↦ none
]

unfoldable pub from_utf8 : Bytes → Option Text
unfolding decode
from_utf8 bytes = decode bytes first

-- `char` holds the Unicode scalar values.
abbrev pub IsScalar : ℕ → Type 0
IsScalar c = (c < 0x110000) × ((leb 0xE000 c || ltb c 0xD800) ≡ true)

one_byte : (c : ℕ) → ltb c 0x80 ≡ true → step first c ≡ emit c
unfolding step
one_byte c h = ground arith

two_bytes :
    (c : ℕ)
    → 0x80 ≤ c
    → c < 0x800
    → (step first (0xC0 + c / 64) ≡ wait (last_of_two (c / 64)))
      × (step (last_of_two (c / 64)) (0x80 + c % 64) ≡ emit c)
unfolding step
two_bytes c h k = (ground arith, ground arith)

three_bytes :
    (c : ℕ)
    → 0x800 ≤ c
    → c < 0x10000
    → IsScalar c
    → (step first (0xE0 + c / 4096) ≡ wait (second_of_three (c / 4096)))
      × (step (second_of_three (c / 4096)) (0x80 + c / 64 % 64) ≡ wait (last_of_three (c / 64)))
      × (step (last_of_three (c / 64)) (0x80 + c % 64) ≡ emit c)
unfolding step
three_bytes c h k s = (ground arith, ground arith, ground arith)

four_bytes :
    (c : ℕ)
    → 0x10000 ≤ c
    → IsScalar c
    → (step first (0xF0 + c / 262144) ≡ wait (second_of_four (c / 262144)))
      × (step (second_of_four (c / 262144)) (0x80 + c / 4096 % 64)
          ≡ wait (third_of_four (c / 4096)))
      × (step (third_of_four (c / 4096)) (0x80 + c / 64 % 64) ≡ wait (last_of_four (c / 64)))
      × (step (last_of_four (c / 64)) (0x80 + c % 64) ≡ emit c)
unfolding step
four_bytes c h s = (ground arith, ground arith, ground arith, ground arith)

decode-emit :
    (d : Decoder) (b : ℕ) (bs : Bytes) {c : ℕ}
    → step d b ≡ emit c
    → decode (b ∷ bs) d ≡ cons_text c (decode bs first)
unfolding decode
decode-emit d b bs h = rw (h, decode) refl

decode-wait :
    (d : Decoder) (b : ℕ) (bs : Bytes) {e : Decoder}
    → step d b ≡ wait e
    → decode (b ∷ bs) d ≡ decode bs e
unfolding decode
decode-wait d b bs h = rw (h, decode) refl

decode-encode_utf8 :
    (c : ℕ) (bs : Bytes)
    → IsScalar c
    → decode (encode_utf8 c ++ bs) first ≡ cons_text c (decode bs first)
unfolding encode_utf8
decode-encode_utf8 c bs h = elim (Bool-cases (ltb c 0x80)) [
  | inl one ↦ rw one (decode-emit _ _ bs (one_byte c one))
  | inr more ↦ elim (Bool-cases (ltb c 0x800)) [
    | inl two ↦
        let s = two_bytes c (ground arith) (ltb→lt _ _ two) in
        rw (more, two) (decode-wait _ _ _ s.0 ∙ decode-emit _ _ bs s.1)
    | inr more' ↦ elim (Bool-cases (ltb c 0x10000)) [
      | inl three ↦
          let s = three_bytes c (ground arith) (ltb→lt _ _ three) h in
          rw (more, more', three)
            (decode-wait _ _ _ s.0 ∙ decode-wait _ _ _ s.1 ∙ decode-emit _ _ bs s.2)
      | inr four ↦
          let s = four_bytes c (ground arith) h in
          rw (more, more', four)
            (decode-wait _ _ _ s.0
              ∙ decode-wait _ _ _ s.1
              ∙ decode-wait _ _ _ s.2
              ∙ decode-emit _ _ bs s.3)
    ]
  ]
]

pub from_utf8-as_bytes : (t : Text) → All IsScalar t → from_utf8 (as_bytes t) ≡ some t
unfolding from_utf8 as_bytes decode cons_text
from_utf8-as_bytes [] h = refl
from_utf8-as_bytes (c ∷ cs) h =
    decode-encode_utf8 c (as_bytes cs) h.0 ∙ ap (cons_text c) (from_utf8-as_bytes cs h.1)

pub length-as_bytes : (t : Text) → length (as_bytes t) ≡ utf8_len t
unfolding as_bytes utf8_len len_utf8 encode_utf8
length-as_bytes [] = refl
length-as_bytes (c ∷ cs) = ground (arith, length-as_bytes cs)

pub as_bytes-injective :
    (s t : Text) → All IsScalar s → All IsScalar t → as_bytes s ≡ as_bytes t → s ≡ t
as_bytes-injective s t hs ht e =
    let same : some s ≡ some t =
      sym (from_utf8-as_bytes s hs) ∙ ap from_utf8 e ∙ from_utf8-as_bytes t ht in
    cc
