-- ===== src/Command/RoundTrip.antt =====
-- Every command can be typed.
use veilroom.Prelude.{
  Bool, [], all, arith, false, none, refl, some, text, true, ℕ, ◌++◌, ◌==◌, ◌∙◌, ◌∷◌, ◌≡◌, nat_eq,
  list_eq, pair_eq,
}
use veilroom.Command.Arguments.{
  parse_timeout_request-decimal, parse_timeout-decimal, parse_request_id-decimal,
  parse_kick_target-nickname, parse_kick_target-id, decimal-IsArgument, parse_simple_arg-IsArgument,
}
use veilroom.Command.Typed.{
  color_name, parse_slash-words, parse_slash-name, parse_line-slash, line_of, is_graphic,
  IsArgument, words, Words, IsTypeable, typed, IsBlank,
}
use veilroom.Command.Color.{ColorChoice}
use veilroom.Validation.{is_unsafe_display_char, contains_control_char}
use veilroom.Command.Line.{command, SlashCommand, KickTarget, ok, parse_line, name_of, parse_named}

module _ (is_whitespace : ℕ → Bool) (blank : IsBlank is_whitespace) where
  -- What the parser makes of a name and an argument.
  abbrev Reads : SlashCommand → Words → Type 0
  Reads c (name, none) = parse_named (name_of name) name [] ≡ ok c
  Reads c (name, some arg) =
      IsArgument is_whitespace arg × (parse_named (name_of name) name arg ≡ ok c)

  abbrev Named : Words → Type 0
  Named ([], arg) = ⊥
  Named (c ∷ name, arg) = (all is_graphic (c ∷ name) ≡ true) × ((c == b'/') ≡ false)

  words-Named : (c : SlashCommand) → Named (words c)
  unfolding words
  words-Named (SlashCommand.kick (KickTarget.id n)) = (refl, refl)
  words-Named (SlashCommand.kick (KickTarget.nickname t)) = (refl, refl)
  words-Named (SlashCommand.timeout none) = (refl, refl)
  words-Named (SlashCommand.timeout (some n)) = (refl, refl)
  words-Named _ = (refl, refl)

  color-Reads : (c : ColorChoice) → Reads (SlashCommand.color c) (text "color", some (color_name c))
  unfolding name_of parse_named color_name contains_control_char is_unsafe_display_char
  color-Reads ColorChoice.red = ((blank.graphic _ refl, refl), refl)
  color-Reads ColorChoice.green = ((blank.graphic _ refl, refl), refl)
  color-Reads ColorChoice.yellow = ((blank.graphic _ refl, refl), refl)
  color-Reads ColorChoice.blue = ((blank.graphic _ refl, refl), refl)
  color-Reads ColorChoice.magenta = ((blank.graphic _ refl, refl), refl)
  color-Reads ColorChoice.cyan = ((blank.graphic _ refl, refl), refl)
  color-Reads ColorChoice.white = ((blank.graphic _ refl, refl), refl)

  words-Reads : (c : SlashCommand) → IsTypeable is_whitespace c → Reads c (words c)
  unfolding words name_of parse_named contains_control_char is_unsafe_display_char
  words-Reads SlashCommand.help t = refl
  words-Reads SlashCommand.exit t = refl
  words-Reads SlashCommand.leave t = refl
  words-Reads SlashCommand.list t = refl
  words-Reads SlashCommand.new_id t = refl
  words-Reads SlashCommand.req_on t = refl
  words-Reads SlashCommand.req_off t = refl
  words-Reads SlashCommand.requests t = refl
  words-Reads SlashCommand.copy t = refl
  words-Reads SlashCommand.clear t = refl
  words-Reads SlashCommand.color_list t = ((blank.graphic b'l' refl, refl), refl)
  words-Reads (SlashCommand.color c) t = color-Reads c
  words-Reads (SlashCommand.whois u) t =
      (t, rw (parse_simple_arg-IsArgument is_whitespace blank (text "whois") u t) refl)
  words-Reads (SlashCommand.kick (KickTarget.id n)) t = (
    (decimal-IsArgument is_whitespace blank n).0,
    rw (parse_kick_target-id is_whitespace blank n t) refl,
  )
  words-Reads (SlashCommand.kick (KickTarget.nickname u)) t =
      (t.0, rw (parse_kick_target-nickname is_whitespace blank u t.0 t.1) refl)
  words-Reads (SlashCommand.accept n) t = (
    (decimal-IsArgument is_whitespace blank n).0,
    rw (parse_request_id-decimal is_whitespace blank (text "accept") n t) refl,
  )
  words-Reads (SlashCommand.reject n) t = (
    (decimal-IsArgument is_whitespace blank n).0,
    rw (parse_request_id-decimal is_whitespace blank (text "reject") n t) refl,
  )
  words-Reads (SlashCommand.timeout none) t = ((blank.graphic b'o' refl, refl), refl)
  words-Reads (SlashCommand.timeout (some n)) t = (
    (decimal-IsArgument is_whitespace blank n).0,
    rw (parse_timeout-decimal is_whitespace blank n t.0 t.1) refl,
  )
  words-Reads (SlashCommand.timeout_request n) t = (
    (decimal-IsArgument is_whitespace blank n).0,
    rw (parse_timeout_request-decimal is_whitespace blank n t.0 t.1) refl,
  )

  parse_line-line_of :
      (c : SlashCommand) (w : Words)
      → Named w
      → Reads c w
      → parse_line is_whitespace (line_of w) ≡ ok (command c)
  parse_line-line_of c ([], arg) n r = absurd n
  parse_line-line_of c (d ∷ name, none) n r =
      parse_line-slash is_whitespace blank d name (ground arith) n.1
      ∙ parse_slash-name is_whitespace blank d name n.0
      ∙ rw r refl
  parse_line-line_of c (d ∷ name, some []) n r = absurd r.0
  parse_line-line_of c (d ∷ name, some (a ∷ arg)) n r =
      parse_line-slash is_whitespace blank d (name ++ 0x20 ∷ a ∷ arg) (ground arith) n.1
      ∙ parse_slash-words is_whitespace blank d name a arg n.0 r.0.0
      ∙ rw (r.1) refl

-- Every slash command can be typed: its name behind a slash, and its argument, if it has one, behind a
-- space, are parsed as this command. It takes that ids are below 2^64, lifetimes from 1 to 3600 seconds,
-- and names not empty, without unsafe characters, not beginning with whitespace, and, for a nickname to
-- kick, not all digits; and that a space counts as whitespace and printable ASCII does not.
pub parse_line-typed :
    (is_whitespace : ℕ → Bool) (c : SlashCommand)
    → IsBlank is_whitespace
    → IsTypeable is_whitespace c
    → parse_line is_whitespace (typed c) ≡ ok (command c)
unfolding typed
parse_line-typed is_whitespace c blank t =
    parse_line-line_of is_whitespace blank c (words c) (words-Named is_whitespace blank c)
      (words-Reads is_whitespace blank c t)
