-- ===== src/Prelude/Int.antt =====
-- `i64` as an integer, and its two's complement bit pattern.
use passman.Prelude.Tests.{ltb, if◌then◌else◌}
use Prim.Native.Nat.{ℕ, ◌-◌, ◌^◌, ◌<◌}
use mathlib.Core.Path.{◌≡◌}
use native.Mathlib.Omega.{arith}

-- `negsuc n` is -(n + 1).
pub data ℤ : Type 0 where
  pos : ℕ → ℤ
  negsuc : ℕ → ℤ

-- The values of an `i64`.
abbrev pub IsI64 : ℤ → Type 0
IsI64 (pos n) = n < 2 ^ 63
IsI64 (negsuc n) = n < 2 ^ 63

unfoldable pub i64_bits : ℤ → ℕ
i64_bits (pos n) = n
i64_bits (negsuc n) = 2 ^ 64 - 1 - n

unfoldable pub i64_of_bits : ℕ → ℤ
i64_of_bits w = if ltb w (2 ^ 63) then pos w else negsuc (2 ^ 64 - 1 - w)

pub i64_bits-lt : (z : ℤ) → IsI64 z → i64_bits z < 2 ^ 64
unfolding i64_bits
i64_bits-lt (pos n) h = omega arith
i64_bits-lt (negsuc n) h = omega arith

pub i64_of_bits-i64_bits : (z : ℤ) → IsI64 z → i64_of_bits (i64_bits z) ≡ z
unfolding i64_bits i64_of_bits
i64_of_bits-i64_bits (pos n) h = ground arith
i64_of_bits-i64_bits (negsuc n) h = ground arith

pub i64_of_bits-IsI64 : (w : ℕ) → w < 2 ^ 64 → IsI64 (i64_of_bits w)
unfolding i64_of_bits
i64_of_bits-IsI64 w h = ground arith

pub i64_bits-i64_of_bits : (w : ℕ) → w < 2 ^ 64 → i64_bits (i64_of_bits w) ≡ w
unfolding i64_bits i64_of_bits
i64_bits-i64_of_bits w h = ground arith
