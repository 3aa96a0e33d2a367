-- ===== src/Command/Line.antt =====
-- command.rs: what a typed line means.
use veilroom.Prelude.{
  Bool, Text, [], false, if◌then◌else◌, not, text, ℕ, ◌&&◌, ◌==◌, ◌∷◌, nat_eq, list_eq, pair_eq,
}
use veilroom.Command.Color.{ColorChoice}
pub use veilroom.Command.Syntax.{
  KickTarget, SlashCommand, ParsedLine, Detail, CommandError, Result, max_message_timeout_seconds,
  command, chat, empty_line, unknown_command, missing_argument, control_character_not_allowed,
  unexpected_argument, invalid_argument, Checked, ok, err, ◌>>=◌, ◌>>◌, reject_if, ok_or,
}
unfoldable pub use veilroom.Command.Syntax.{
  no_args, color_named, parse_color, lifetime, parse_timeout, requested, parse_timeout_request,
  parse_simple_arg, member_target, kick_target, parse_kick_target, request_id, parse_request_id,
}

-- The names that the parser knows, and the rest.
pub data Name : Type 0 where
  help exit leave list new_id req_on req_off requests copy clear : Name
  color timeout timeout_request whois kick accept reject unknown : Name

unfoldable pub name_of : Text → Name
name_of name =
    if name == text "help"
    then Name.help
    else if name == text "exit"
    then Name.exit
    else if name == text "leave"
    then Name.leave
    else if name == text "list"
    then Name.list
    else if name == text "newid"
    then Name.new_id
    else if name == text "reqon"
    then Name.req_on
    else if name == text "reqoff"
    then Name.req_off
    else if name == text "requests"
    then Name.requests
    else if name == text "copy"
    then Name.copy
    else if name == text "clear"
    then Name.clear
    else if name == text "color"
    then Name.color
    else if name == text "timeout"
    then Name.timeout
    else if name == text "timeoutreq"
    then Name.timeout_request
    else if name == text "whois"
    then Name.whois
    else if name == text "kick"
    then Name.kick
    else if name == text "accept"
    then Name.accept
    else if name == text "reject"
    then Name.reject
    else Name.unknown

unfoldable pub colored : Result ColorChoice → Result SlashCommand
colored (ok c) = ok (SlashCommand.color c)
colored (err e) = err e

-- The arms of the match on the name.
unfoldable pub parse_named : Name → Text → Text → Result SlashCommand
unfolding colored no_args parse_color parse_timeout parse_timeout_request parse_simple_arg
    parse_kick_target parse_request_id
parse_named Name.help name args = no_args (text "help") args SlashCommand.help
parse_named Name.exit name args = no_args (text "exit") args SlashCommand.exit
parse_named Name.leave name args = no_args (text "leave") args SlashCommand.leave
parse_named Name.list name args = no_args (text "list") args SlashCommand.list
parse_named Name.new_id name args = no_args (text "newid") args SlashCommand.new_id
parse_named Name.req_on name args = no_args (text "reqon") args SlashCommand.req_on
parse_named Name.req_off name args = no_args (text "reqoff") args SlashCommand.req_off
parse_named Name.requests name args = no_args (text "requests") args SlashCommand.requests
parse_named Name.copy name args = no_args (text "copy") args SlashCommand.copy
parse_named Name.clear name args = no_args (text "clear") args SlashCommand.clear
parse_named Name.color name args =
    if args == text "list" then ok SlashCommand.color_list else colored (parse_color args)
parse_named Name.timeout name args = parse_timeout args >>= (λ t. ok (SlashCommand.timeout t))
parse_named Name.timeout_request name args =
    parse_timeout_request args >>= (λ t. ok (SlashCommand.timeout_request t))
parse_named Name.whois name args =
    parse_simple_arg (text "whois") args >>= (λ t. ok (SlashCommand.whois t))
parse_named Name.kick name args = parse_kick_target args >>= (λ t. ok (SlashCommand.kick t))
parse_named Name.accept name args =
    parse_request_id (text "accept") args >>= (λ n. ok (SlashCommand.accept n))
parse_named Name.reject name args =
    parse_request_id (text "reject") args >>= (λ n. ok (SlashCommand.reject n))
parse_named Name.unknown name args = err (unknown_command name)

module _ (is_whitespace : ℕ → Bool) where
  -- `trim_start_matches(char::is_whitespace)`.
  unfoldable pub trim_start : Text → Text
  trim_start [] = []
  trim_start (c ∷ cs) = if is_whitespace c then trim_start cs else c ∷ cs

  -- The text before the first whitespace, and the text from there on.
  unfoldable pub split_name : Text → Text × Text
  split_name [] = ([], [])
  split_name (c ∷ cs) =
      let (name, rest) = split_name cs in if is_whitespace c then ([], c ∷ cs) else (c ∷ name, rest)

  unfoldable pub parse_split : Text × Text → Result SlashCommand
  unfolding trim_start name_of parse_named
  parse_split (name, rest) = parse_named (name_of name) name (trim_start rest)

  -- The text after the slash.
  unfoldable pub parse_slash : Text → Result ParsedLine
  unfolding trim_start split_name parse_split
  parse_slash rest = parse_split (split_name (trim_start rest)) >>= (λ c. ok (command c))

  -- A text that starts with whitespace.
  starts_blank : Text → Bool
  starts_blank [] = false
  starts_blank (c ∷ cs) = is_whitespace c

  unfoldable pub parse_line : Text → Result ParsedLine
  unfolding starts_blank
  parse_line [] = err empty_line
  parse_line (c ∷ []) = if c == b'/' then parse_slash [] else ok (chat (c ∷ []))
  parse_line (c ∷ d ∷ rest) =
      if c == b'/' && d == b'/'
      then ok (chat (b'/' ∷ rest))
      else if not (c == b'/')
      then ok (chat (c ∷ d ∷ rest))
      else if starts_blank (d ∷ rest)
      then ok (chat (c ∷ d ∷ rest))
      else parse_slash (d ∷ rest)
