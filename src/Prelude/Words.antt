-- ===== src/Prelude/Words.antt =====
-- Machine integers as native numbers below their modulus. The release profile of the build keeps
-- Rust's default, in which an addition wraps.
use Prim.Native.Nat.{ℕ, ◌+◌, ◌%◌, ◌^◌, ◌<◌}
use mathlib.Core.Path.{◌≡◌}
use native.Mathlib.Omega.{arith}

abbrev pub u32_mod : ℕ
u32_mod = 2 ^ 32

abbrev pub u64_mod : ℕ
u64_mod = 2 ^ 64

-- `x += 1` on a `u32` and on a `u64`.
unfoldable pub succ32 : ℕ → ℕ
succ32 n = (n + 1) % u32_mod

unfoldable pub succ64 : ℕ → ℕ
succ64 n = (n + 1) % u64_mod

pub succ32_lem : (n : ℕ) → n + 1 < u32_mod → succ32 n ≡ n + 1
unfolding succ32
succ32_lem n h = omega arith

pub succ64_lem : (n : ℕ) → n + 1 < u64_mod → succ64 n ≡ n + 1
unfolding succ64
succ64_lem n h = omega arith
