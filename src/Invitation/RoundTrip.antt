-- ===== src/Invitation/RoundTrip.antt =====
-- An invitation survives its link.
use veilroom.Prelude.{
  Bool, Bytes, Option-cases, Text, [], all, all-append, all-digit-decimal, ap, append_assoc, arith,
  contains, decimal, digits_value, false, has_char, has_char-append, inl, inr, is_ascii_digit,
  length, length-decimal, nat_eq, not, parse_unsigned, parse_unsigned-decimal, refl,
  rsplit_once-append, some, split, split-none, split_at_text, split_once, split_once-append,
  strip_prefix, strip_suffix, strip_suffix-eq, sym, text, true, ℕ, ◌&&◌, ◌++◌, ◌<◌, ◌==◌, ◌∙◌, ◌∷◌,
  ◌≡◌, ◌≤◌, list_eq, pair_eq,
}
use veilroom.Invitation.Address.{onion_v3_alphabet, body_checks, ok, validate_onion_address}
use veilroom.Invitation.{
  new, parse_scheme, to_uri_string, parse_invitation, parse_authority, with_query, parameters,
  token_fits, parse_query, parse_port, Invitation, Base64,
}

-- None of the separators of a link.
abbrev pub is_plain : ℕ → Bool
is_plain c =
    not (c == b'#')
    && not (c == b'/')
    && not (c == b'?')
    && not (c == b':')
    && not (c == b'&')
    && not (c == b'=')
    && not (c == b'@')

-- What base64 promises: it is decoded, and writes only letters, digits, `-` and `_`, at least one for
-- a byte.
pub record IsCodec (b : Base64) : Type 0 where
  pub decode-encode : (bytes : Bytes) → b.decode (b.encode bytes) ≡ some bytes
  pub plain : (bytes : Bytes) → all is_plain (b.encode bytes) ≡ true
  pub some_text : (bytes : Bytes) → 1 ≤ length bytes → 1 ≤ length (b.encode bytes)

plain-has_char :
    (sep : ℕ) (t : Text) → all is_plain t ≡ true → is_plain sep ≡ false → has_char sep t ≡ false
plain-has_char sep [] h k = refl
plain-has_char sep (c ∷ t) h k = ground (arith, plain-has_char sep t)

digits-plain : (t : Text) → all is_ascii_digit t ≡ true → all is_plain t ≡ true
unfolding is_ascii_digit
digits-plain [] h = refl
digits-plain (c ∷ t) h = ground (arith, digits-plain t)

decimal-plain : (n : ℕ) → all is_plain (decimal n) ≡ true
decimal-plain n = digits-plain (decimal n) (all-digit-decimal n)

parse_port-digits :
    (t : Text) (n : ℕ)
    → all is_ascii_digit t ≡ true
    → 1 ≤ length t
    → parse_unsigned 65536 t ≡ some n
    → 1 ≤ n
    → parse_port t ≡ ok n
unfolding parse_port
parse_port-digits [] n h k e lo = absurd (omega arith)
parse_port-digits (c ∷ t) n h k e lo = rw (h, e) (ground (arith, nat_eq.eq_iff n 0))

parse_port-decimal : (n : ℕ) → 1 ≤ n → n < 65536 → parse_port (decimal n) ≡ ok n
parse_port-decimal n lo hi =
    parse_port-digits (decimal n) n (all-digit-decimal n) (length-decimal n)
      (parse_unsigned-decimal 65536 n hi) lo

token_fits-some : (n : ℕ) → token_fits n ≡ true → 1 ≤ n
unfolding token_fits
token_fits-some n h = ground arith

-- What holds of a whole alphabet holds of its letters.
letter-plain :
    (letters : Text) (c : ℕ)
    → all is_plain letters ≡ true
    → contains letters c ≡ true
    → is_plain c ≡ true
letter-plain [] c h k = absurd cc
letter-plain (d ∷ letters) c h k = ground (arith, nat_eq.eq_iff d c, letter-plain letters c)

letters-plain :
    (letters t : Text)
    → all is_plain letters ≡ true
    → all (contains letters) t ≡ true
    → all is_plain t ≡ true
letters-plain letters [] h k = refl
letters-plain letters (c ∷ t) h k =
    ground (arith, letter-plain letters c h, letters-plain letters t h)

module _ (sha3_256 : Bytes → Bytes) where
  body-plain : (body : Text) → body_checks sha3_256 body ≡ ok tt → all is_plain body ≡ true
  unfolding body_checks
  body-plain body h = letters-plain onion_v3_alphabet body refl (ground arith)

  valid-plain :
      (address : Text)
      → validate_onion_address sha3_256 address ≡ ok tt
      → all is_plain address ≡ true
  unfolding validate_onion_address
  valid-plain address h = elim (Option-cases (strip_suffix (text ".onion") address)) [
    | inl no_suffix ↦ absurd (ground arith)
    | inr (body, found) ↦
        let parts = strip_suffix-eq (text ".onion") address body found in
        let checked : body_checks sha3_256 body ≡ ok tt = rw found at h in
        ap (all is_plain) parts
        ∙ all-append is_plain body (text ".onion")
        ∙ rw (body-plain body checked) refl
  ]

  module _ (b : Base64) (codec : IsCodec b) (i : Invitation) where
    -- What `new` has checked.
    IsChecked : Type 0
    IsChecked =
        (validate_onion_address sha3_256 i.onion_address ≡ ok tt)
        × (1 ≤ i.port)
        × (token_fits (length i.token) ≡ true)

    abbrev query : Text
    query = text "v=1&token=" ++ b.encode i.token

    abbrev authority : Text
    authority = i.onion_address ++ b':' ∷ decimal i.port

    parse_query-link :
        (e : Text)
        → b.decode e ≡ some i.token
        → all is_plain e ≡ true
        → 1 ≤ length e
        → token_fits (length i.token) ≡ true
        → parse_query b sha3_256 i.onion_address i.port (text "v=1&token=" ++ e) ≡ ok i
    unfolding parse_query parameters with_query split split_once parse_unsigned digits_value
        is_ascii_digit
    parse_query-link [] d p n f = absurd (omega arith)
    parse_query-link (c ∷ e) d p n f =
        rw (split-none b'&' (c ∷ e) (plain-has_char b'&' (c ∷ e) p refl)) (rw d (rw f refl))

    -- The separators that may stand nowhere in an authority but for the colon in it.
    authority-has_char :
        (sep : ℕ)
        → IsChecked
        → is_plain sep ≡ false
        → (b':' == sep) ≡ false
        → has_char sep authority ≡ false
    unfolding IsChecked
    authority-has_char sep (valid, lo, fits) h k =
        has_char-append sep i.onion_address (b':' ∷ decimal i.port)
        ∙ rw
            (
              plain-has_char sep i.onion_address (valid-plain i.onion_address valid) h,
              plain-has_char sep (decimal i.port) (decimal-plain i.port) h,
              k,
            )
            refl

    link-no_fragment :
        IsChecked → has_char b'#' (text "veilroom://" ++ (authority ++ b'?' ∷ query)) ≡ false
    link-no_fragment checked =
        has_char-append b'#' authority (b'?' ∷ query)
        ∙ rw
            (
              authority-has_char b'#' checked refl refl,
              plain-has_char b'#' (b.encode i.token) (codec.plain i.token) refl,
            )
            refl

    parse_authority-link :
        i.port < 65536 → IsChecked → parse_authority b sha3_256 authority query ≡ ok i
    unfolding parse_authority IsChecked
    parse_authority-link hi (valid, lo, fits) =
        let parts =
          rsplit_once-append b':' i.onion_address (decimal i.port)
            (plain-has_char b':' (decimal i.port) (decimal-plain i.port) refl) in
        rw (authority-has_char b'/' (valid, lo, fits) refl refl, parts)
          (rw (valid, parse_port-decimal i.port lo hi)
            (parse_query-link (b.encode i.token) (codec.decode-encode i.token) (codec.plain i.token)
              (codec.some_text i.token (token_fits-some (length i.token) fits)) fits))

    to_uri_string-authority :
        to_uri_string b sha3_256 i ≡ text "veilroom://" ++ (authority ++ b'?' ∷ query)
    unfolding to_uri_string
    to_uri_string-authority =
        ap (text "veilroom://" ++◌)
          (sym (append_assoc i.onion_address (b':' ∷ decimal i.port) (b'?' ∷ query)))

    parse_invitation-link :
        i.port < 65536 → IsChecked → parse_invitation b sha3_256 (to_uri_string b sha3_256 i) ≡ ok i
    unfolding parse_invitation parse_scheme split_at_text strip_prefix
    parse_invitation-link hi checked =
        rw (to_uri_string-authority, link-no_fragment checked)
          (rw (split_once-append b'?' authority query (authority-has_char b'?' checked refl refl))
            (parse_authority-link hi checked))

  -- What `new` gives consists of its arguments, which it has checked.
  new-IsChecked :
      (b : Base64) (codec : IsCodec b) (i : Invitation) (address : Text) (port : ℕ) (token : Bytes)
      → new b sha3_256 address port token ≡ ok i
      → (i.port ≡ port) × IsChecked b codec i
  unfolding new IsChecked
  new-IsChecked b codec i address port token h =
      (ground arith, (ground arith, ground (arith, nat_eq.eq_iff port 0), ground arith))

-- An invitation that `new` has made, for a 16-bit port, is read back from its link. It takes that base64
-- decodes what it encodes, and writes none of the separators of a link.
pub parse_invitation-to_uri_string :
    (b : Base64) (sha3_256 : Bytes → Bytes) (address : Text) (port : ℕ) (token : Bytes)
    (i : Invitation)
    → IsCodec b
    → port < 65536
    → new b sha3_256 address port token ≡ ok i
    → parse_invitation b sha3_256 (to_uri_string b sha3_256 i) ≡ ok i
parse_invitation-to_uri_string b sha3_256 address port token i codec hi made =
    let (same_port, checked) = new-IsChecked sha3_256 b codec i address port token made in
    parse_invitation-link sha3_256 b codec i (omega arith) checked
