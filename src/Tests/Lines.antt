-- ===== src/Tests/Lines.antt =====
-- Command lines and invitation links at concrete inputs.
use veilroom.Prelude.{
  Bool, Bytes, Text, [], all, ap, arith, decimal, length-map, map, refl, some, strip_suffix, text,
  true, ℕ, ◌+◌, ◌-◌, ◌==◌, ◌↔◌, ◌∷◌, ◌≡◌, nat_eq, list_eq, pair_eq,
}
use veilroom.Command.Line.{command, chat, SlashCommand, KickTarget, ok, parse_line}
use veilroom.Command.Meaning.{MeansChat, parse_line-chat_iff}
use veilroom.Command.RoundTrip.{parse_line-typed}
use veilroom.Command.Typed.{IsBlank, typed}
use veilroom.Invitation
use veilroom.Invitation.{Base64, Invitation, to_uri_string, parse_invitation}
use veilroom.Invitation.Address
use veilroom.Prelude.Texts.{utf8_len, len_utf8}
use veilroom.Invitation.Address.{
  body_checks, is_valid_onion_v3_body, validate_onion_address, decode_base32,
}
use veilroom.Invitation.RoundTrip.{is_plain, IsCodec, parse_invitation-to_uri_string}

abbrev is_space : ℕ → Bool
is_space c = c == 0x20

is_space-IsBlank : IsBlank is_space
is_space-IsBlank = record { space = refl; graphic = λ c h. ground arith }

parse_line-typed_example :
    parse_line is_space (text "/kick 42") ≡ ok (command (SlashCommand.kick (KickTarget.id 42)))
unfolding typed decimal
parse_line-typed_example =
    parse_line-typed is_space (SlashCommand.kick (KickTarget.id 42)) is_space-IsBlank (omega arith)

parse_line-chat_iff_example :
    (parse_line is_space (text "//help") ≡ ok (chat (text "/help")))
    ↔ MeansChat is_space (text "//help") (text "/help")
parse_line-chat_iff_example = parse_line-chat_iff is_space (text "//help") (text "/help")

-- A codec that writes each byte as a letter of its own, far from the separators.
abbrev shifted : Base64
shifted = record {
  encode = λ bytes. map (λ n. n + 1000) bytes;
  decode = λ t. some (map (λ c. c - 1000) t);
}

unshift : (bytes : Bytes) → map (λ c. c - 1000) (map (λ n. n + 1000) bytes) ≡ bytes
unshift [] = refl
unshift (n ∷ bytes) = let here : n + 1000 - 1000 ≡ n = omega arith in cc (here, unshift bytes)

shifted-plain : (bytes : Bytes) → all is_plain (map (λ n. n + 1000) bytes) ≡ true
shifted-plain [] = refl
shifted-plain (n ∷ bytes) = ground (arith, shifted-plain bytes)

shifted-IsCodec : IsCodec shifted
shifted-IsCodec = record {
  decode-encode = λ bytes. ap some (unshift bytes);
  plain = shifted-plain;
  some_text = λ bytes h. rw (length-map (λ n. n + 1000) bytes) h;
}

abbrev digest : Bytes → Bytes
digest message = 0 ∷ 0 ∷ []

abbrev onion : Text
onion = text "aaaaaaaaaaaaaaaaaaaaaaaaaaaaaaaaaaaaaaaaaaaaaaaaaaaaaaad.onion"

abbrev token : Bytes
token = 1 ∷ 2 ∷ 3 ∷ 4 ∷ 5 ∷ 6 ∷ 7 ∷ 8 ∷ 9 ∷ 10 ∷ 11 ∷ 12 ∷ 13 ∷ 14 ∷ 15 ∷ 16 ∷ []

abbrev invited : Invitation
invited = record { onion_address = onion; port = 443; token = token }

invited-new : Invitation.new shifted digest onion 443 token ≡ Address.Checked.ok invited
unfolding Invitation.new validate_onion_address strip_suffix body_checks utf8_len len_utf8
    is_valid_onion_v3_body decode_base32
invited-new = refl

parse_invitation-to_uri_string_example :
    parse_invitation shifted digest (to_uri_string shifted digest invited)
    ≡ Address.Checked.ok invited
parse_invitation-to_uri_string_example =
    parse_invitation-to_uri_string shifted digest onion 443 token invited shifted-IsCodec
      (omega arith) invited-new
