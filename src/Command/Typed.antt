-- ===== src/Command/Typed.antt =====
-- Every command can be typed, and which lines are chat.
use veilroom.Prelude.{
  Bool, Option, Text, [], all, arith, decimal, false, is_ascii_digit, ltb, none, refl, some, text,
  true, u64_mod, ℕ, ◌&&◌, ◌++◌, ◌<◌, ◌==◌, ◌∷◌, ◌≡◌, ◌≤◌, nat_eq, list_eq, pair_eq,
}
use veilroom.Command.Color.{ColorChoice}
use veilroom.Validation.{contains_control_char}
use veilroom.Command.Line.{
  command, SlashCommand, KickTarget, ok, ◌>>=◌, parse_line, name_of, parse_named, parse_slash,
  trim_start, split_name, parse_split, max_message_timeout_seconds,
}

-- Printable ASCII, without the space.
abbrev pub is_graphic : ℕ → Bool
is_graphic c = ltb 0x20 c && ltb c 0x7F

-- What is known of the `White_Space` property: a space has it, printable ASCII has not.
pub record IsBlank (is_whitespace : ℕ → Bool) : Type 0 where
  pub space : is_whitespace 0x20 ≡ true
  pub graphic : (c : ℕ) → is_graphic c ≡ true → is_whitespace c ≡ false

-- The name of a command.
unfoldable pub color_name : ColorChoice → Text
color_name ColorChoice.red = text "red"
color_name ColorChoice.green = text "green"
color_name ColorChoice.yellow = text "yellow"
color_name ColorChoice.blue = text "blue"
color_name ColorChoice.magenta = text "magenta"
color_name ColorChoice.cyan = text "cyan"
color_name ColorChoice.white = text "white"

-- A name, and an argument if there is one.
abbrev pub Words : Type 0
Words = Text × Option Text

unfoldable pub words : SlashCommand → Words
unfolding color_name
words SlashCommand.help = (text "help", none)
words SlashCommand.exit = (text "exit", none)
words SlashCommand.leave = (text "leave", none)
words SlashCommand.list = (text "list", none)
words SlashCommand.new_id = (text "newid", none)
words SlashCommand.req_on = (text "reqon", none)
words SlashCommand.req_off = (text "reqoff", none)
words SlashCommand.requests = (text "requests", none)
words SlashCommand.copy = (text "copy", none)
words SlashCommand.clear = (text "clear", none)
words SlashCommand.color_list = (text "color", some (text "list"))
words (SlashCommand.color c) = (text "color", some (color_name c))
words (SlashCommand.whois t) = (text "whois", some t)
words (SlashCommand.kick (KickTarget.id n)) = (text "kick", some (decimal n))
words (SlashCommand.kick (KickTarget.nickname t)) = (text "kick", some t)
words (SlashCommand.accept n) = (text "accept", some (decimal n))
words (SlashCommand.reject n) = (text "reject", some (decimal n))
words (SlashCommand.timeout none) = (text "timeout", some (text "off"))
words (SlashCommand.timeout (some n)) = (text "timeout", some (decimal n))
words (SlashCommand.timeout_request n) = (text "timeoutreq", some (decimal n))

abbrev pub line_of : Words → Text
line_of (name, none) = b'/' ∷ name
line_of (name, some arg) = b'/' ∷ (name ++ 0x20 ∷ arg)

-- The line that a user types for a command.
unfoldable pub typed : SlashCommand → Text
unfolding words
typed c = line_of (words c)

module _ (is_whitespace : ℕ → Bool) where
  -- An argument that the parser takes whole: not empty, with nothing unsafe in it, and no space before it.
  abbrev pub IsArgument : Text → Type 0
  IsArgument [] = ⊥
  IsArgument (c ∷ cs) = (is_whitespace c ≡ false) × (contains_control_char (c ∷ cs) ≡ false)

  abbrev pub IsTypeable : SlashCommand → Type 0
  IsTypeable (SlashCommand.whois t) = IsArgument t
  IsTypeable (SlashCommand.kick (KickTarget.id n)) = n < u64_mod
  IsTypeable (SlashCommand.kick (KickTarget.nickname t)) =
      IsArgument t × (all is_ascii_digit t ≡ false)
  IsTypeable (SlashCommand.accept n) = n < u64_mod
  IsTypeable (SlashCommand.reject n) = n < u64_mod
  IsTypeable (SlashCommand.timeout (some n)) = (1 ≤ n) × (n ≤ max_message_timeout_seconds)
  IsTypeable (SlashCommand.timeout_request n) = (1 ≤ n) × (n ≤ max_message_timeout_seconds)
  IsTypeable _ = Unit

  module _ (blank : IsBlank is_whitespace) where
    pub split_name-space :
        (name arg : Text)
        → all is_graphic name ≡ true
        → split_name is_whitespace (name ++ 0x20 ∷ arg) ≡ (name, 0x20 ∷ arg)
    unfolding split_name
    split_name-space [] arg h = rw (blank.space) refl
    split_name-space (c ∷ name) arg h =
        rw (blank.graphic c (ground arith), split_name-space name arg (ground arith)) refl

    split_name-all :
        (name : Text) → all is_graphic name ≡ true → split_name is_whitespace name ≡ (name, [])
    unfolding split_name
    split_name-all [] h = refl
    split_name-all (c ∷ name) h =
        rw (blank.graphic c (ground arith), split_name-all name (ground arith)) refl

    -- A line is split into the name and the argument.
    pub parse_slash-words :
        (c : ℕ) (name : Text) (a : ℕ) (arg : Text)
        → all is_graphic (c ∷ name) ≡ true
        → is_whitespace a ≡ false
        → parse_slash is_whitespace (c ∷ (name ++ 0x20 ∷ a ∷ arg))
          ≡ (parse_named (name_of (c ∷ name)) (c ∷ name) (a ∷ arg) >>= (λ s. ok (command s)))
    unfolding parse_slash trim_start parse_split
    parse_slash-words c name a arg h ha =
        rw (blank.graphic c (ground arith))
          (rw (split_name-space (c ∷ name) (a ∷ arg) h) (rw (blank.space) (rw ha refl)))

    pub parse_slash-name :
        (c : ℕ) (name : Text)
        → all is_graphic (c ∷ name) ≡ true
        → parse_slash is_whitespace (c ∷ name)
          ≡ (parse_named (name_of (c ∷ name)) (c ∷ name) [] >>= (λ s. ok (command s)))
    unfolding parse_slash trim_start parse_split
    parse_slash-name c name h =
        rw (blank.graphic c (ground arith)) (rw (split_name-all (c ∷ name) h) refl)

    pub parse_line-slash :
        (c : ℕ) (rest : Text)
        → is_graphic c ≡ true
        → (c == b'/') ≡ false
        → parse_line is_whitespace (b'/' ∷ c ∷ rest) ≡ parse_slash is_whitespace (c ∷ rest)
    unfolding parse_line
    parse_line-slash c rest h k = rw (k, blank.graphic c h) refl
