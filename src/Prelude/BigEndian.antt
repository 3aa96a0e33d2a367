-- ===== src/Prelude/BigEndian.antt =====
-- Big-endian numbers of a fixed width: `to_be_bytes` and `from_be_bytes`.
use Prim.Native.Nat.{ℕ, zero, suc, ◌+◌, ◌*◌, ◌/◌, ◌%◌, ◌<◌}
use mathlib.Core.Path.{◌≡◌, refl, ap, sym, ◌∙◌}
use mathlib.Core.List.{[], ◌∷◌, ◌++◌}
use native.Mathlib.Omega.{arith}
use veilroom.Prelude.Lists.{length, length-append}
use veilroom.Prelude.Texts.{Bytes}

-- The first number that does not fit so many bytes.
abbrev pub byte_range : ℕ → ℕ
byte_range zero = 1
byte_range (suc k) = 256 * byte_range k

-- The lowest bytes of a number, the highest of them first: an `as` to the width and `to_be_bytes`.
unfoldable pub to_be_bytes : ℕ → ℕ → Bytes
to_be_bytes zero x = []
to_be_bytes (suc k) x = to_be_bytes k (x / 256) ++ x % 256 ∷ []

unfoldable pub from_be_bytes : ℕ → Bytes → ℕ
from_be_bytes acc [] = acc
from_be_bytes acc (b ∷ bs) = from_be_bytes (acc * 256 + b) bs

pub length-to_be_bytes : (k x : ℕ) → length (to_be_bytes k x) ≡ k
unfolding to_be_bytes
length-to_be_bytes zero x = refl
length-to_be_bytes (suc k) x =
    omega (
      arith,
      length-append (to_be_bytes k (x / 256)) (x % 256 ∷ []),
      length-to_be_bytes k (x / 256),
    )

from_be_bytes-snoc :
    (acc : ℕ) (bs : Bytes) (b : ℕ)
    → from_be_bytes acc (bs ++ b ∷ []) ≡ from_be_bytes acc bs * 256 + b
unfolding from_be_bytes
from_be_bytes-snoc acc [] b = refl
from_be_bytes-snoc acc (c ∷ bs) b = from_be_bytes-snoc (acc * 256 + c) bs b

-- A number that fits is read back.
pub from_be_bytes-to_be_bytes : (k x : ℕ) → x < byte_range k → from_be_bytes 0 (to_be_bytes k x) ≡ x
unfolding from_be_bytes to_be_bytes
from_be_bytes-to_be_bytes zero x h = omega arith
from_be_bytes-to_be_bytes (suc k) x h =
    from_be_bytes-snoc 0 (to_be_bytes k (x / 256)) (x % 256)
    ∙ omega (arith, from_be_bytes-to_be_bytes k (x / 256))

pub to_be_bytes-injective :
    (k x y : ℕ) → x < byte_range k → y < byte_range k → to_be_bytes k x ≡ to_be_bytes k y → x ≡ y
to_be_bytes-injective k x y hx hy e =
    sym (from_be_bytes-to_be_bytes k x hx)
    ∙ ap (from_be_bytes 0) e
    ∙ from_be_bytes-to_be_bytes k y hy
