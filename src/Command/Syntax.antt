-- ===== src/Command/Syntax.antt =====
-- command.rs: the commands, and the parsers of their arguments.
use veilroom.Prelude.{
  Option, Text, [], all, if◌then◌else◌, is_ascii_digit, ltb, none, not, parse_unsigned, some, text,
  u64_mod, ℕ, ◌==◌, nat_eq, list_eq, pair_eq,
}
use veilroom.Command.Color.{ColorChoice}
use veilroom.Event.{MemberId, RequestId}
use veilroom.Validation.{contains_control_char}
pub use veilroom.Prelude.Checked.{Checked, ok, err, ◌>>=◌, ◌>>◌, reject_if, ok_or}

pub data KickTarget : Type 0 where
  id : MemberId → KickTarget
  nickname : Text → KickTarget

pub data SlashCommand : Type 0 where
  help exit leave color_list list new_id req_on req_off requests copy clear : SlashCommand
  color : ColorChoice → SlashCommand
  whois : Text → SlashCommand
  kick : KickTarget → SlashCommand
  accept reject : RequestId → SlashCommand
  timeout : Option ℕ → SlashCommand
  timeout_request : ℕ → SlashCommand

pub data ParsedLine : Type 0 where
  command : SlashCommand → ParsedLine
  chat : Text → ParsedLine

-- The texts of `CommandError::InvalidArgument`.
pub data Detail : Type 0 where
  unknown_color not_seconds invalid_member_id not_numeric invalid_request_id : Text → Detail
  zero_lifetime lifetime_above_maximum lifetime_needed : Detail

-- error.rs; the command's name comes first.
pub data CommandError : Type 0 where
  empty_line : CommandError
  unknown_command missing_argument control_character_not_allowed : Text → CommandError
  unexpected_argument : Text → Text → CommandError
  invalid_argument : Text → Detail → CommandError

abbrev pub Result {ℓ} : Type ℓ → Type ℓ
Result A = Checked CommandError A

abbrev pub max_message_timeout_seconds : ℕ
max_message_timeout_seconds = 3600

unfoldable pub no_args : Text → Text → SlashCommand → Result SlashCommand
no_args name [] c = ok c
no_args name args c = err (unexpected_argument name args)

unfoldable pub color_named : Text → Result ColorChoice
color_named args =
    if args == text "red"
    then ok ColorChoice.red
    else if args == text "green"
    then ok ColorChoice.green
    else if args == text "yellow"
    then ok ColorChoice.yellow
    else if args == text "blue"
    then ok ColorChoice.blue
    else if args == text "magenta"
    then ok ColorChoice.magenta
    else if args == text "cyan"
    then ok ColorChoice.cyan
    else if args == text "white"
    then ok ColorChoice.white
    else err (invalid_argument (text "color") (unknown_color args))

unfoldable pub parse_color : Text → Result ColorChoice
unfolding color_named
parse_color args = do
  reject_if (args == []) (missing_argument (text "color"))
  reject_if (contains_control_char args) (control_character_not_allowed (text "color"))
  color_named args

unfoldable pub lifetime : Text → Result (Option ℕ)
lifetime args = do
  seconds ←
      ok_or (parse_unsigned u64_mod args) (invalid_argument (text "timeout") (not_seconds args))
  reject_if (seconds == 0) (invalid_argument (text "timeout") zero_lifetime)
  reject_if (ltb max_message_timeout_seconds seconds)
      (invalid_argument (text "timeout") lifetime_above_maximum)
  ok (some seconds)

unfoldable pub parse_timeout : Text → Result (Option ℕ)
unfolding lifetime
parse_timeout args = do
  reject_if (args == []) (missing_argument (text "timeout"))
  reject_if (contains_control_char args) (control_character_not_allowed (text "timeout"))
  if args == text "off" then ok none else lifetime args

unfoldable pub requested : Result (Option ℕ) → Result ℕ
requested (ok (some seconds)) = ok seconds
requested (ok none) = err (invalid_argument (text "timeoutreq") lifetime_needed)
requested (err (missing_argument c)) = err (missing_argument (text "timeoutreq"))
requested (err (control_character_not_allowed c)) =
    err (control_character_not_allowed (text "timeoutreq"))
requested (err (invalid_argument c detail)) = err (invalid_argument (text "timeoutreq") detail)
requested (err other) = err other

unfoldable pub parse_timeout_request : Text → Result ℕ
unfolding requested parse_timeout
parse_timeout_request args = requested (parse_timeout args)

unfoldable pub parse_simple_arg : Text → Text → Result Text
parse_simple_arg name args = do
  reject_if (args == []) (missing_argument name)
  reject_if (contains_control_char args) (control_character_not_allowed name)
  ok args

unfoldable pub member_target : Text → Result KickTarget
member_target arg = do
  n ← ok_or (parse_unsigned u64_mod arg) (invalid_argument (text "kick") (invalid_member_id arg))
  ok (KickTarget.id n)

-- A byte of a longer scalar value is no digit, so the test of the bytes is one of the scalar values.
unfoldable pub kick_target : Text → Result KickTarget
unfolding member_target
kick_target arg = if all is_ascii_digit arg then member_target arg else ok (KickTarget.nickname arg)

unfoldable pub parse_kick_target : Text → Result KickTarget
unfolding parse_simple_arg kick_target
parse_kick_target args = parse_simple_arg (text "kick") args >>= kick_target

unfoldable pub request_id : Text → Text → Result RequestId
request_id name arg = do
  reject_if (not (all is_ascii_digit arg)) (invalid_argument name (not_numeric arg))
  ok_or (parse_unsigned u64_mod arg) (invalid_argument name (invalid_request_id arg))

unfoldable pub parse_request_id : Text → Text → Result RequestId
unfolding parse_simple_arg request_id
parse_request_id name args = parse_simple_arg name args >>= request_id name
