-- ===== src/Command/Arguments.antt =====
-- The arguments of commands, read back from what a user types.
use veilroom.Prelude.{
  Bool, Text, [], all, all-digit-decimal, arith, decimal, false, is_ascii_digit, length,
  length-decimal, parse_unsigned-decimal, refl, some, text, true, u64_mod, ℕ, ◌<◌, ◌==◌, ◌∙◌, ◌∷◌,
  ◌≡◌, ◌≤◌, nat_eq, list_eq, pair_eq,
}
use veilroom.Command.Typed.{IsArgument, IsBlank}
use veilroom.Validation.{is_unsafe_display_char, contains_control_char}
use veilroom.Command.Line.{
  parse_timeout_request, parse_timeout, parse_simple_arg, parse_request_id, parse_kick_target,
  lifetime, KickTarget, ok, max_message_timeout_seconds,
}

digits-safe : (t : Text) → all is_ascii_digit t ≡ true → contains_control_char t ≡ false
unfolding is_ascii_digit contains_control_char is_unsafe_display_char
digits-safe [] h = refl
digits-safe (c ∷ cs) h = ground (arith, digits-safe cs)

module _ (is_whitespace : ℕ → Bool) (blank : IsBlank is_whitespace) where
  digits-IsArgument :
      (t : Text)
      → all is_ascii_digit t ≡ true
      → 1 ≤ length t
      → IsArgument is_whitespace t × ((t == text "off") ≡ false)
  unfolding is_ascii_digit
  digits-IsArgument [] h k = absurd (omega arith)
  digits-IsArgument (c ∷ cs) h k =
      ((blank.graphic c (ground arith), digits-safe (c ∷ cs) h), ground arith)

  pub decimal-IsArgument :
      (n : ℕ) → IsArgument is_whitespace (decimal n) × ((decimal n == text "off") ≡ false)
  decimal-IsArgument n = digits-IsArgument (decimal n) (all-digit-decimal n) (length-decimal n)

  pub parse_simple_arg-IsArgument :
      (name t : Text) → IsArgument is_whitespace t → parse_simple_arg name t ≡ ok t
  unfolding parse_simple_arg
  parse_simple_arg-IsArgument name [] h = absurd h
  parse_simple_arg-IsArgument name (c ∷ cs) h = rw (h.1) refl

  pub parse_request_id-decimal :
      (name : Text) (n : ℕ) → n < u64_mod → parse_request_id name (decimal n) ≡ ok n
  unfolding parse_request_id
  parse_request_id-decimal name n h =
      rw (parse_simple_arg-IsArgument name (decimal n) (decimal-IsArgument n).0)
        (rw (all-digit-decimal n, parse_unsigned-decimal u64_mod n h) refl)

  pub parse_kick_target-id :
      (n : ℕ) → n < u64_mod → parse_kick_target (decimal n) ≡ ok (KickTarget.id n)
  unfolding parse_kick_target
  parse_kick_target-id n h =
      rw (parse_simple_arg-IsArgument (text "kick") (decimal n) (decimal-IsArgument n).0)
        (rw (all-digit-decimal n, parse_unsigned-decimal u64_mod n h) refl)

  pub parse_kick_target-nickname :
      (t : Text)
      → IsArgument is_whitespace t
      → all is_ascii_digit t ≡ false
      → parse_kick_target t ≡ ok (KickTarget.nickname t)
  unfolding parse_kick_target
  parse_kick_target-nickname t h k = rw (parse_simple_arg-IsArgument (text "kick") t h) (rw k refl)

  lifetime-decimal :
      (n : ℕ) → 1 ≤ n → n ≤ max_message_timeout_seconds → lifetime (decimal n) ≡ ok (some n)
  unfolding lifetime
  lifetime-decimal n lo hi = rw (parse_unsigned-decimal u64_mod n (omega arith)) (ground arith)

  parse_timeout-digits :
      (t : Text)
      → IsArgument is_whitespace t
      → (t == text "off") ≡ false
      → parse_timeout t ≡ lifetime t
  unfolding parse_timeout
  parse_timeout-digits [] h k = absurd h
  parse_timeout-digits (c ∷ cs) h k = rw (h.1, k) refl

  pub parse_timeout-decimal :
      (n : ℕ) → 1 ≤ n → n ≤ max_message_timeout_seconds → parse_timeout (decimal n) ≡ ok (some n)
  parse_timeout-decimal n lo hi =
      parse_timeout-digits (decimal n) (decimal-IsArgument n).0 (decimal-IsArgument n).1
      ∙ lifetime-decimal n lo hi

  pub parse_timeout_request-decimal :
      (n : ℕ) → 1 ≤ n → n ≤ max_message_timeout_seconds → parse_timeout_request (decimal n) ≡ ok n
  unfolding parse_timeout_request
  parse_timeout_request-decimal n lo hi = rw (parse_timeout-decimal n lo hi) refl
