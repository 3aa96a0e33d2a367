-- ===== src/Prelude.antt =====
-- The names that the other modules share: the libraries' and those of the children.
pub mod Tests
pub mod Lists
pub mod Equality
pub mod HashMap
pub mod Words
pub mod Strip
pub mod Texts
pub mod Utf8
pub mod BigEndian
pub mod Decimal
pub mod Splits
pub mod Checked
unfoldable pub use Decimal.{is_ascii_digit, digits_value, parse_unsigned, decimal}
pub use Decimal.{parse_unsigned-decimal, all-digit-decimal, length-decimal}
unfoldable pub use Splits.{
  split_once, rsplit_once, strip_prefix, strip_suffix, split_at_text, split,
}
pub use Splits.{
  has_char, split_once-append, rsplit_once-append, split-none, has_char-append, strip_suffix-eq,
}
unfoldable pub use BigEndian.{byte_range, to_be_bytes, from_be_bytes}
pub use BigEndian.{length-to_be_bytes, from_be_bytes-to_be_bytes, to_be_bytes-injective}
pub use Tests.{
  ltb, leb, if◌then◌else◌, ltb→lt, lt→ltb, leb→le, le→leb, tests, Bool-cases, if-both, Option-cases,
  is_some, bool_eq, and_then, or_else, get_or,
}
pub use Lists.*
pub use Equality.*
pub use Words.*
pub use Strip.*
pub use Texts.*
unfoldable pub use Utf8.{encode_utf8, as_bytes, from_utf8}
pub use Utf8.{IsScalar, from_utf8-as_bytes, length-as_bytes, as_bytes-injective}
pub use Prim.Native.Nat.{ℕ, zero, suc, ◌+◌, ◌-◌, ◌*◌, ◌/◌, ◌%◌, ◌^◌, ◌≤◌, ◌<◌, min, max}
pub use mathlib.Core.Path.{◌≡◌, refl, sym, ap, subst, ◌∙◌}
pub use mathlib.Core.Logic.{◌≢◌, ◌↔◌, ◌⊎◌, inl, inr}
pub use mathlib.Core.Bool.{Bool, true, false, not, ◌&&◌, ◌||◌}
pub use mathlib.Core.Option.{Option, none, some}
pub use mathlib.Core.List.{List, [], ◌∷◌, ◌++◌, map, reverse, append_assoc, append-nil}
pub use native.Mathlib.Omega.{arith}
