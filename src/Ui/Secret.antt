-- ===== src/Ui/Secret.antt =====
-- src/ui/input.rs: the field of a password, which holds the bytes of its UTF-8 form.
use veilroom.Prelude.{
  Bool, Bool-cases, Bytes, Option, Text, [], arith, encode_utf8, false, if◌then◌else◌, inl, inr,
  leb, length, length-append, ltb, none, reverse, some, suc, take, take-length-append, true, ℕ,
  ◌&&◌, ◌++◌, ◌+◌, ◌-◌, ◌==◌, ◌||◌, ◌∷◌, ◌≡◌, nat_eq, list_eq, pair_eq,
}
use mathlib.Core.List.{reverse-append}
use veilroom.Prelude.Texts.{len_utf8}
use veilroom.Validation.{is_unsafe_display_char}

pub record SecretField : Type 0 where
  pub bytes : Bytes
  pub max_bytes : ℕ
  pub complete : Bool

unfoldable pub empty_secret : ℕ → SecretField
empty_secret max_bytes = record { bytes = []; max_bytes = max_bytes; complete = false }

unfoldable pub push_char : SecretField → ℕ → SecretField × Bool
push_char f ch =
    if f.complete || is_unsafe_display_char ch
    then (f, false)
    else if ltb f.max_bytes (length f.bytes + len_utf8 ch)
    then (f, false)
    else (record f { bytes = f.bytes ++ encode_utf8 ch }, true)

unfoldable pub push_text : SecretField → Text → SecretField
push_text f [] = f
push_text f (ch ∷ chs) = push_text (push_char f ch).0 chs

-- `byte & 0b1100_0000 == 0b1000_0000`.
unfoldable pub is_continuation : ℕ → Bool
is_continuation byte = leb 0x80 byte && ltb byte 0xC0

-- `take_while(..).count()`.
unfoldable pub count_while : Bytes → ℕ
count_while [] = 0
count_while (byte ∷ bytes) =
    let rest = count_while bytes in if is_continuation byte then suc rest else 0

unfoldable pub pop : SecretField → SecretField
pop f =
    if f.complete || length f.bytes == 0
    then f
    else record f { bytes = take (length f.bytes - count_while (reverse f.bytes) - 1) f.bytes }

unfoldable pub clear_secret : SecretField → SecretField
clear_secret f = record f { bytes = []; complete = false }

-- `SecretSubmit::Value` is some password, `SecretSubmit::None` none.
unfoldable pub submit_secret : SecretField → SecretField × Option Bytes
submit_secret f =
    if f.complete
    then (f, none)
    else if length f.bytes == 0
    then (f, none)
    else (record f { bytes = []; complete = true }, some f.bytes)

unfoldable pub take_value : SecretField → SecretField × Option Bytes
take_value f = if f.complete then (record f { bytes = [] }, some f.bytes) else (f, none)

-- The password that a field gave out is gone from it: a value that is taken after a submission is
-- empty.
take_value-submit :
    (f : SecretField) {password : Bytes}
    → (submit_secret f).1 ≡ some password
    → (take_value (submit_secret f).0).1 ≡ some []
unfolding submit_secret take_value
take_value-submit f h = ground arith

-- All bytes of a character but the first are continuation bytes.
count-encode_utf8 :
    (c : ℕ) (rest : Bytes)
    → count_while (reverse (encode_utf8 c) ++ rest) + 1 ≡ length (encode_utf8 c)
unfolding count_while is_continuation encode_utf8
count-encode_utf8 c rest = elim (Bool-cases (ltb c 0x80)) [
  | inl one ↦ rw one (ground arith)
  | inr more ↦ elim (Bool-cases (ltb c 0x800)) [
    | inl two ↦ rw (more, two) (ground arith)
    | inr more2 ↦ elim (Bool-cases (ltb c 0x10000)) [
      | inl three ↦ rw (more, more2, three) (ground arith)
      | inr four ↦ rw (more, more2, four) (ground arith)
    ]
  ]
]

popped :
    (held : Bytes) (c : ℕ)
    → take
        (length (held ++ encode_utf8 c) - count_while (reverse (held ++ encode_utf8 c)) - 1)
        (held ++ encode_utf8 c)
      ≡ held
popped held c =
    let kept : length (held ++ encode_utf8 c) - count_while (reverse (held ++ encode_utf8 c)) - 1
        ≡ length held =
      rw (reverse-append held (encode_utf8 c))
        (omega (arith, length-append held (encode_utf8 c), count-encode_utf8 c (reverse held))) in
    rw kept (take-length-append held (encode_utf8 c))

-- When a password field takes a character, removing its last character gives back the field as it
-- was, however many bytes the character has.
pub pop-push_char :
    (f : SecretField) (ch : ℕ) → (push_char f ch).1 ≡ true → pop (push_char f ch).0 ≡ f
unfolding push_char pop
pop-push_char f ch h =
    ground
      (arith, popped f.bytes ch, count-encode_utf8 ch [], length-append f.bytes (encode_utf8 ch))
