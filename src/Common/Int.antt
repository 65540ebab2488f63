-- ===== src/Common/Int.antt =====
-- Signed integers, and the two's complement of `int16_t`.
use Prim.Native.Nat.{ℕ, ◌-◌, ◌%◌, ◌^◌, ◌<◌}
use mathlib.Core.Path.{◌≡◌}
use native.Mathlib.Omega.{arith}
use swbt_daemon.Common.Tests.{ltb, if◌then◌else◌}

-- `negsuc n` is -(n + 1).
pub data ℤ : Type 0 where
  pos : ℕ → ℤ
  negsuc : ℕ → ℤ

-- `(uint16_t)value` of a signed value.
abbrev pub to_u16 : ℤ → ℕ
to_u16 (pos n) = n % 2 ^ 16
to_u16 (negsuc n) = 2 ^ 16 - 1 - n % 2 ^ 16

-- The signed value that a pattern of 16 bits stands for.
abbrev pub of_u16 : ℕ → ℤ
of_u16 w = if ltb w (2 ^ 15) then pos w else negsuc (2 ^ 16 - 1 - w)

-- The values of `int16_t`.
abbrev pub IsInt16 : ℤ → Type 0
IsInt16 (pos n) = n < 2 ^ 15
IsInt16 (negsuc n) = n < 2 ^ 15

pub of_u16-to_u16 : (z : ℤ) → IsInt16 z → of_u16 (to_u16 z) ≡ z
of_u16-to_u16 (pos n) h = ground arith
of_u16-to_u16 (negsuc n) h = ground arith

pub to_u16-lt : (z : ℤ) → to_u16 z < 2 ^ 16
to_u16-lt (pos n) = omega arith
to_u16-lt (negsuc n) = omega arith
