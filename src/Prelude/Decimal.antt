-- ===== src/Prelude/Decimal.antt =====
-- Decimal numbers: `str::parse` to an unsigned integer, and `Display`.
use Prim.Native.Nat.{ℕ, zero, suc, ◌+◌, ◌-◌, ◌*◌, ◌/◌, ◌%◌, ◌≤◌, ◌<◌}
use mathlib.Core.Path.{◌≡◌, refl, ap, ◌∙◌}
use mathlib.Core.Bool.{Bool, true, ◌&&◌}
use mathlib.Core.Logic.{inl, inr}
use mathlib.Core.List.{[], ◌∷◌, ◌++◌}
use mathlib.Core.Option.{Option, none, some}
use native.Mathlib.Omega.{arith}
use veilroom.Prelude.Tests.{
  ltb, leb, if◌then◌else◌, ◌==◌, and_then, Bool-cases, Option-cases, lt→ltb, ltb→lt, le→leb,
}
use veilroom.Prelude.Lists.{all, length, length-append}
use veilroom.Prelude.Texts.{Text}

-- `is_ascii_digit`, on a byte or a scalar value.
unfoldable pub is_ascii_digit : ℕ → Bool
is_ascii_digit c = leb b'0' c && leb c b'9'

-- One more digit, as long as the value stays below the modulus.
unfoldable pub push_digit : ℕ → ℕ → ℕ → Option ℕ
unfolding is_ascii_digit
push_digit modulus acc c =
    if is_ascii_digit c && ltb (acc * 10 + (c - b'0')) modulus
    then some (acc * 10 + (c - b'0'))
    else none

unfoldable pub digits_value : ℕ → ℕ → Text → Option ℕ
unfolding push_digit
digits_value modulus acc [] = some acc
digits_value modulus acc (c ∷ cs) =
    and_then (push_digit modulus acc c) (λ v. digits_value modulus v cs)

nonempty_value : ℕ → Text → Option ℕ
unfolding digits_value
nonempty_value modulus [] = none
nonempty_value modulus (c ∷ cs) = digits_value modulus 0 (c ∷ cs)

-- `parse` to the unsigned type with this modulus: a plus sign may stand in front.
unfoldable pub parse_unsigned : ℕ → Text → Option ℕ
unfolding nonempty_value
parse_unsigned modulus [] = none
parse_unsigned modulus (c ∷ cs) =
    if c == b'+' then nonempty_value modulus cs else nonempty_value modulus (c ∷ cs)

digits : ℕ → ℕ → Text
digits zero n = []
digits (suc fuel) n =
    let rest = digits fuel (n / 10) in
    if ltb n 10 then (b'0' + n) ∷ [] else rest ++ (b'0' + n % 10) ∷ []

-- `to_string`: a number has at most as many digits as it is large, or one.
unfoldable pub decimal : ℕ → Text
unfolding digits
decimal n = digits (suc n) n

push_digit-lt :
    (modulus v d : ℕ)
    → d < 10
    → v * 10 + d < modulus
    → push_digit modulus v (b'0' + d) ≡ some (v * 10 + d)
unfolding push_digit
push_digit-lt modulus v d h k =
    let here : b'0' + d - b'0' ≡ d = omega arith in
    rw here (
      rw (le→leb b'0' (b'0' + d) (omega arith), le→leb (b'0' + d) b'9' (omega arith), lt→ltb _ _ k)
        refl)

digits_value-snoc :
    (modulus acc : ℕ) (cs : Text) (c v : ℕ)
    → digits_value modulus acc cs ≡ some v
    → digits_value modulus acc (cs ++ c ∷ []) ≡ push_digit modulus v c
unfolding digits_value
digits_value-snoc modulus acc [] c v h = ground arith
digits_value-snoc modulus acc (d ∷ cs) c v h = elim (Option-cases (push_digit modulus acc d)) [
  | inl refused ↦ absurd (ground arith)
  | inr (w, taken) ↦ rw taken (digits_value-snoc modulus w cs c v (ground arith))
]

digits_value-digits :
    (modulus fuel n : ℕ) → n < fuel → n < modulus → digits_value modulus 0 (digits fuel n) ≡ some n
unfolding digits digits_value
digits_value-digits modulus zero n h k = absurd (omega arith)
digits_value-digits modulus (suc fuel) n h k = elim (Bool-cases (ltb n 10)) [
  | inl small ↦
      rw small
        (rw (push_digit-lt modulus 0 n (ltb→lt n 10 small) (omega arith)) (ap some (omega arith)))
  | inr large ↦ rw large (
      digits_value-snoc modulus 0 (digits fuel (n / 10)) (b'0' + n % 10) (n / 10)
        (digits_value-digits modulus fuel (n / 10) (ground arith) (omega arith))
      ∙ push_digit-lt modulus (n / 10) (n % 10) (omega arith) (omega arith)
      ∙ ap some (omega arith))
]

all-snoc :
    (cs : Text) (c : ℕ)
    → all is_ascii_digit (cs ++ c ∷ []) ≡ all is_ascii_digit cs && is_ascii_digit c
all-snoc [] c = ground arith
all-snoc (d ∷ cs) c = ground (arith, all-snoc cs c)

all-digits : (fuel n : ℕ) → all is_ascii_digit (digits fuel n) ≡ true
unfolding digits is_ascii_digit
all-digits zero n = refl
all-digits (suc fuel) n =
    ground (arith, all-digits fuel (n / 10), all-snoc (digits fuel (n / 10)) (b'0' + n % 10))

length-digits : (fuel n : ℕ) → 1 ≤ length (digits (suc fuel) n)
unfolding digits
length-digits fuel n = ground (arith, length-append (digits fuel (n / 10)) ((b'0' + n % 10) ∷ []))

-- A printed number consists of digits, of one at least.
pub all-digit-decimal : (n : ℕ) → all is_ascii_digit (decimal n) ≡ true
unfolding decimal
all-digit-decimal n = all-digits (suc n) n

pub length-decimal : (n : ℕ) → 1 ≤ length (decimal n)
unfolding decimal
length-decimal n = length-digits n n

-- What consists of digits is read without a sign.
parse_unsigned-digits :
    (modulus : ℕ) (cs : Text)
    → all is_ascii_digit cs ≡ true
    → 1 ≤ length cs
    → parse_unsigned modulus cs ≡ digits_value modulus 0 cs
unfolding parse_unsigned is_ascii_digit
parse_unsigned-digits modulus [] h k = absurd (omega arith)
parse_unsigned-digits modulus (c ∷ cs) h k = ground arith

-- A number that fits the type is read back.
pub parse_unsigned-decimal :
    (modulus n : ℕ) → n < modulus → parse_unsigned modulus (decimal n) ≡ some n
unfolding decimal
parse_unsigned-decimal modulus n h =
    parse_unsigned-digits modulus (decimal n) (all-digit-decimal n) (length-decimal n)
    ∙ digits_value-digits modulus (suc n) n (omega arith) h
