-- ===== src/Validation.antt =====
-- validation.rs and ui/sanitize.rs: which characters a text may hold.
pub mod Display
pub mod Spaces
use veilroom.Prelude.{
  Bool, Text, [], any, if◌then◌else◌, leb, length, ltb, not, utf8_len, ℕ, ◌&&◌, ◌++◌, ◌==◌, ◌||◌,
  ◌∷◌, nat_eq, list_eq, pair_eq,
}
use veilroom.Limits.{Limits}

-- `char::is_control`: the general category Cc.
is_control : ℕ → Bool
is_control c = ltb c 0x20 || leb 0x7F c && leb c 0x9F

is_dangerous_format_char : ℕ → Bool
is_dangerous_format_char c =
    leb 0x200B c && leb c 0x200F
    || leb 0x202A c && leb c 0x202E
    || leb 0x2060 c && leb c 0x2064
    || leb 0x2066 c && leb c 0x2069
    || c == 0xFEFF

unfoldable pub is_unsafe_display_char : ℕ → Bool
unfolding is_control is_dangerous_format_char
is_unsafe_display_char c = is_control c || is_dangerous_format_char c

unfoldable pub contains_control_char : Text → Bool
contains_control_char input = any is_unsafe_display_char input

pub data ValidationError : Type 0 where
  empty_nickname control_character_not_allowed exotic_whitespace_not_allowed : ValidationError
  not_single_line : ValidationError
  nickname_too_long intro_too_long chat_text_too_long : ℕ → ValidationError

pub data Result {ℓ} (A : Type ℓ) : Type ℓ where
  ok : A → Result A
  err : ValidationError → Result A

-- `split(' ')` without the empty words, and the words joined by single spaces: `word` is the word
-- read so far, `out` what was written.
push_word : Text → Text → Text
push_word out [] = out
push_word [] word = word
push_word out word = out ++ 0x20 ∷ word

collapse_from : Text → Text → Text → Text
unfolding push_word
collapse_from out word [] = push_word out word
collapse_from out word (c ∷ cs) =
    if c == 0x20
    then collapse_from (push_word out word) [] cs
    else collapse_from out (word ++ c ∷ []) cs

unfoldable pub collapse_spaces : Text → Text
unfolding collapse_from
collapse_spaces input = collapse_from [] [] input

-- The Unicode tables are the standard library's and the normalization crate's: `nfc` composes a text,
-- `is_whitespace` is the `White_Space` property.
check_normalized : Text → Limits → Result Text
check_normalized [] limits = err empty_nickname
check_normalized normalized limits =
    if ltb limits.max_nickname_scalars (length normalized)
    then err (nickname_too_long limits.max_nickname_scalars)
    else ok normalized

check_composed : (ℕ → Bool) → Text → Limits → Result Text
unfolding check_normalized collapse_spaces contains_control_char
check_composed is_whitespace composed limits =
    if contains_control_char composed
    then err control_character_not_allowed
    else if any (λ c. is_whitespace c && not (c == 0x20)) composed
    then err exotic_whitespace_not_allowed
    else check_normalized (collapse_spaces composed) limits

unfoldable pub validate_nickname : (Text → Text) → (ℕ → Bool) → Text → Limits → Result Text
unfolding check_composed
validate_nickname nfc is_whitespace [] limits = err empty_nickname
validate_nickname nfc is_whitespace input limits = check_composed is_whitespace (nfc input) limits

unfoldable pub validate_intro : Text → Limits → Result (Unit {0})
unfolding contains_control_char
validate_intro [] limits = ok tt
validate_intro input limits =
    if any (λ c. c == 0x0A || c == 0x0D) input
    then err not_single_line
    else if contains_control_char input
    then err control_character_not_allowed
    else if ltb limits.max_intro_scalars (length input)
    then err (intro_too_long limits.max_intro_scalars)
    else ok tt

unfoldable pub validate_chat_text : Text → Limits → Result (Unit {0})
unfolding contains_control_char
validate_chat_text input limits =
    if contains_control_char input
    then err control_character_not_allowed
    else if ltb limits.max_chat_text_bytes (utf8_len input)
    then err (chat_text_too_long limits.max_chat_text_bytes)
    else ok tt

unfoldable pub sanitize_for_display : Text → Text
unfolding is_unsafe_display_char
sanitize_for_display [] = []
sanitize_for_display (c ∷ cs) =
    let rest = sanitize_for_display cs in
    if is_unsafe_display_char c
    then (if c == 0x09 || c == 0x0A || c == 0x0D then 0x20 ∷ rest else rest)
    else c ∷ rest
