-- ===== src/Invitation/Address.antt =====
-- uri.rs: the onion addresses of invitations.
use veilroom.Prelude.{
  Bool, Bytes, Option, Text, [], all, and_then, as_bytes, contains, drop, false, get_elem?, get_or,
  if◌then◌else◌, leb, length, none, not, some, strip_suffix, take, text, utf8_len, ℕ, ◌%◌, ◌&&◌,
  ◌*◌, ◌++◌, ◌+◌, ◌-◌, ◌/◌, ◌==◌, ◌^◌, ◌∷◌, nat_eq, list_eq, pair_eq,
}
pub use veilroom.Prelude.Checked.{Checked, ok, err, ◌>>=◌, ◌>>◌, reject_if, ok_or}

-- error.rs
pub data UriError : Type 0 where
  invalid_scheme user_info_not_allowed fragment_not_allowed path_not_allowed : UriError
  malformed_onion_address invalid_onion_alphabet missing_port invalid_port : UriError
  missing_version invalid_version missing_token invalid_token : UriError
  unsupported_version invalid_token_length : ℕ → UriError
  unknown_query_parameter duplicate_query_parameter invalid_query_parameter : Text → UriError

abbrev pub Result {ℓ} : Type ℓ → Type ℓ
Result A = Checked UriError A

-- The value of a letter or digit of the base32 alphabet.
base32_value : ℕ → Option ℕ
base32_value b =
    if leb b'a' b && leb b b'z'
    then some (b - b'a')
    else if leb b'2' b && leb b b'7'
    then some (b - b'2' + 26)
    else none

-- The bits that are not yet a byte: their value and their number.
pub record Bits : Type 0 where
  pub output : Bytes
  pub accumulator : ℕ
  pub bits : ℕ

-- The inner loop makes one round at most, since there are fewer than eight bits before five are added.
push_five : Bits → ℕ → Bits
push_five s v =
    let accumulator = s.accumulator * 32 + v in
    let bits = s.bits + 5 in
    if leb 8 bits
    then record {
      output = s.output ++ (accumulator / 2 ^ (bits - 8)) % 256 ∷ [];
      accumulator = accumulator % 2 ^ (bits - 8);
      bits = bits - 8;
    }
    else record { output = s.output; accumulator = accumulator; bits = bits }

decode_from : Bits → Text → Option Bits
unfolding base32_value push_five
decode_from s [] = some s
decode_from s (b ∷ bs) = and_then (base32_value b) (λ v. decode_from (push_five s v) bs)

all_output : Bits → Option Bytes
all_output s = if not (s.bits == 0) && not (s.accumulator == 0) then none else some s.output

unfoldable pub decode_base32 : Text → Option Bytes
unfolding decode_from all_output
decode_base32 t =
    and_then (decode_from (record { output = []; accumulator = 0; bits = 0 }) t) all_output

abbrev pub onion_v3_alphabet : Text
onion_v3_alphabet = text "abcdefghijklmnopqrstuvwxyz234567"

module _ (sha3_256 : Bytes → Bytes) where
  -- 32 bytes of a key, two of a checksum, and the version.
  checked_body : Bytes → Bool
  checked_body decoded =
      length decoded == 35
      && get_or (get_elem? decoded 34) 0 == 3
      && take 2 (drop 32 decoded)
        == take 2 (sha3_256 (as_bytes (text ".onion checksum") ++ (take 32 decoded ++ 3 ∷ [])))

  valid_body : Option Bytes → Bool
  unfolding checked_body
  valid_body none = false
  valid_body (some decoded) = checked_body decoded

  unfoldable pub is_valid_onion_v3_body : Text → Bool
  unfolding valid_body
  is_valid_onion_v3_body body = valid_body (decode_base32 body)

  unfoldable pub body_checks : Text → Result (Unit {0})
  body_checks body = do
    reject_if (not (utf8_len body == 56)) UriError.malformed_onion_address
    reject_if (not (all (contains onion_v3_alphabet) body)) UriError.invalid_onion_alphabet
    reject_if (not (is_valid_onion_v3_body body)) UriError.malformed_onion_address

  unfoldable pub validate_onion_address : Text → Result (Unit {0})
  validate_onion_address address = do
    body ← ok_or (strip_suffix (text ".onion") address) UriError.malformed_onion_address
    body_checks body
