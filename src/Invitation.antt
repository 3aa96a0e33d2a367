-- ===== src/Invitation.antt =====
-- uri.rs: invitation links. Base64 and SHA3-256 are third-party: a codec and a digest.
pub mod Address
pub mod RoundTrip
use veilroom.Prelude.{
  Bool, Bytes, List, Option, Text, [], all, contains, decimal, get_or, has_char, if◌then◌else◌,
  is_ascii_digit, leb, length, none, not, parse_unsigned, rsplit_once, some, split, split_at_text,
  split_once, text, ℕ, ◌&&◌, ◌++◌, ◌==◌, ◌||◌, ◌∷◌, nat_eq, list_eq, pair_eq,
}
use veilroom.Invitation.Address.{
  UriError, Result, ok, err, ◌>>=◌, ◌>>◌, reject_if, ok_or, validate_onion_address,
}

-- URL-safe base64 without padding.
pub record Base64 : Type 0 where
  pub encode : Bytes → Text
  pub decode : Text → Option Bytes

pub record Invitation : Type 0 where
  pub onion_address : Text
  pub port : ℕ
  pub token : Bytes

abbrev pub min_token_bytes : ℕ
min_token_bytes = 16

abbrev pub max_token_bytes : ℕ
max_token_bytes = 32

abbrev pub protocol_major_version : ℕ
protocol_major_version = 1

-- `(MIN_TOKEN_BYTES..=MAX_TOKEN_BYTES).contains`
unfoldable pub token_fits : ℕ → Bool
token_fits n = leb min_token_bytes n && leb n max_token_bytes

unfoldable pub parse_port : Text → Result ℕ
parse_port [] = err UriError.missing_port
parse_port t = do
  reject_if (not (all is_ascii_digit t)) UriError.invalid_port
  port ← ok_or (parse_unsigned 65536 t) UriError.invalid_port
  reject_if (port == 0) UriError.invalid_port
  ok port

-- What the loop over the parameters has found, and the names that it has seen.
pub record Query : Type 0 where
  pub version : Option ℕ
  pub token : Option Bytes
  pub seen_names : List Text

module _ (base64 : Base64) (sha3_256 : Bytes → Bytes) where
  unfoldable pub new : Text → ℕ → Bytes → Result Invitation
  unfolding token_fits
  new onion_address port token = do
    validate_onion_address sha3_256 onion_address
    reject_if (port == 0) UriError.invalid_port
    reject_if (not (token_fits (length token))) (UriError.invalid_token_length (length token))
    ok (record { onion_address = onion_address; port = port; token = token })

  unfoldable pub to_uri_string : Invitation → Text
  to_uri_string i =
      text "veilroom://"
      ++ (i.onion_address
          ++ b':' ∷ (decimal i.port ++ b'?' ∷ (text "v=1&token=" ++ base64.encode i.token)))

  version_value : Query → Text → Result Query
  version_value q value = do
    reject_if (not (all is_ascii_digit value)) UriError.invalid_version
    version ← ok_or (parse_unsigned 256 value) UriError.invalid_version
    ok (record q { version = some version })

  token_value : Query → Text → Result Query
  unfolding token_fits
  token_value q value = do
    decoded ← ok_or (base64.decode value) UriError.invalid_token
    reject_if (not (token_fits (length decoded))) (UriError.invalid_token_length (length decoded))
    ok (record q { token = some decoded })

  named_value : Query → Text → Text → Result Query
  unfolding version_value token_value
  named_value q name value =
      if name == text "v"
      then version_value q value
      else if name == text "token"
      then token_value q value
      else err (UriError.unknown_query_parameter name)

  named_parameter : Query → Text → Option (Text × Text) → Result Query
  unfolding named_value
  named_parameter q whole none = err (UriError.invalid_query_parameter whole)
  named_parameter q whole (some (name, value)) = do
    reject_if (name == [] || value == []) (UriError.invalid_query_parameter name)
    reject_if (contains q.seen_names name) (UriError.duplicate_query_parameter name)
    named_value (record q { seen_names = q.seen_names ++ name ∷ [] }) name value

  unfoldable pub parameters : Query → List Text → Result Query
  unfolding named_parameter
  parameters q [] = ok q
  parameters q (t ∷ ts) = named_parameter q t (split_once b'=' t) >>= (λ q'. parameters q' ts)

  abbrev empty_query : Query
  empty_query = record { version = none; token = none; seen_names = [] }

  unfoldable pub with_query : Text → ℕ → Query → Result Invitation
  with_query host port q = do
    version ← ok_or q.version UriError.missing_version
    reject_if (not (version == protocol_major_version)) (UriError.unsupported_version version)
    token ← ok_or q.token UriError.missing_token
    ok (record { onion_address = host; port = port; token = token })

  unfoldable pub parse_query : Text → ℕ → Text → Result Invitation
  unfolding parameters with_query
  parse_query host port [] = err UriError.missing_version
  parse_query host port query = parameters empty_query (split b'&' query) >>= with_query host port

  unfoldable pub parse_authority : Text → Text → Result Invitation
  parse_authority authority query = do
    reject_if (has_char b'/' authority) UriError.path_not_allowed
    (host, port_text) ← ok_or (rsplit_once b':' authority) UriError.missing_port
    validate_onion_address sha3_256 host
    port ← parse_port port_text
    parse_query host port query

  unfoldable pub parse_scheme : Option (Text × Text) → Result Invitation
  parse_scheme none = err UriError.invalid_scheme
  parse_scheme (some (scheme, rest)) = do
    reject_if (has_char b'@' scheme || has_char b':' scheme) UriError.user_info_not_allowed
    reject_if (not (scheme == text "veilroom")) UriError.invalid_scheme
    let (authority, query) = get_or (split_once b'?' rest) (rest, [])
    parse_authority authority query

  unfoldable pub parse_invitation : Text → Result Invitation
  parse_invitation input = do
    reject_if (has_char b'#' input) UriError.fragment_not_allowed
    parse_scheme (split_at_text (text "://") input)
