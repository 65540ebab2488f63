-- ===== src/Common/Bits.antt =====
-- `|` of disjoint fields and `&` with a mask of ones, as arithmetic.
use Prim.Native.Nat.{
  ℕ, zero, suc, ◌+◌, ◌*◌, ◌/◌, ◌%◌, ◌^◌, ◌≤◌, ◌<◌, min, max, bit_and, bit_or, digits,
  bit_and-bitwise, bit_or-bitwise,
}
use mathlib.Core.Path.{◌≡◌, refl, ap}
use mathlib.Core.Bool.{Bool, true, ◌&&◌}
use native.Mathlib.Nat.{pow-suc}
use native.Mathlib.Omega.{arith}

-- The digit recursion does not depend on the fuel, once there is enough.
stable :
    (z : ℕ → ℕ) (f : ℕ → ℕ → ℕ) (k l a b : ℕ) → a ≤ k → a ≤ l → digits z f k a b ≡ digits z f l a b
stable z f zero zero a b p q = refl
stable z f zero (suc l) zero b p q = refl
stable z f zero (suc l) (suc a) b p q = absurd (omega arith)
stable z f (suc k) zero zero b p q = refl
stable z f (suc k) zero (suc a) b p q = absurd (omega arith)
stable z f (suc k) (suc l) zero b p q = refl
stable z f (suc k) (suc l) (suc a) b p q =
    rw (stable z f k l (suc a / 2) (b / 2) (omega arith) (omega arith))

or_low_digit : (a b : ℕ) → bit_or a b ≡ max (a % 2) (b % 2) + 2 * bit_or (a / 2) (b / 2)
or_low_digit zero b = omega (arith, bit_or-bitwise 0 b, bit_or-bitwise 0 (b / 2))
or_low_digit (suc a) b = omega (
  arith,
  bit_or-bitwise (suc a) b,
  bit_or-bitwise (suc a / 2) (b / 2),
  stable (λ y. y) max a (suc a / 2) (suc a / 2) (b / 2) (omega arith) (omega arith),
)

and_low_digit : (a b : ℕ) → bit_and a b ≡ min (a % 2) (b % 2) + 2 * bit_and (a / 2) (b / 2)
and_low_digit zero b = omega (arith, bit_and-bitwise 0 b, bit_and-bitwise 0 (b / 2))
and_low_digit (suc a) b = omega (
  arith,
  bit_and-bitwise (suc a) b,
  bit_and-bitwise (suc a / 2) (b / 2),
  stable (λ y. zero) min a (suc a / 2) (suc a / 2) (b / 2) (omega arith) (omega arith),
)

zero-or : (b : ℕ) → bit_or 0 b ≡ b
zero-or b = bit_or-bitwise 0 b

-- A field in the low `k` bits, joined to one above them.
pub bit_or_disjoint : (k lo hi : ℕ) → lo < 2 ^ k → bit_or lo (hi * 2 ^ k) ≡ lo + hi * 2 ^ k
bit_or_disjoint zero lo hi h =
    let e : lo ≡ 0 = omega arith in rw e (omega (arith, zero-or (hi * 1)))
bit_or_disjoint (suc k) lo hi h =
    let shifted : hi * 2 ^ suc k ≡ 2 * (hi * 2 ^ k) =
      omega (arith, ap (λ (t : ℕ). hi * t) (pow-suc 2 k)) in
    rw shifted (
      let half : 2 * (hi * 2 ^ k) / 2 ≡ hi * 2 ^ k = omega arith in
      omega (
        arith,
        or_low_digit lo (2 * (hi * 2 ^ k)),
        ap (bit_or (lo / 2)) half,
        bit_or_disjoint k (lo / 2) hi (omega (arith, pow-suc 2 k)),
      ))

and-zero_below : (n a : ℕ) → a ≤ n → bit_and a 0 ≡ 0
and-zero_below n zero h = refl
and-zero_below zero (suc a) h = absurd (omega arith)
and-zero_below (suc n) (suc a) h =
    omega (arith, and_low_digit (suc a) 0, and-zero_below n (suc a / 2) (omega arith))

-- `a & 0x0F`.
pub bit_and_0f : (a : ℕ) → bit_and a 0x0F ≡ a % 2 ^ 4
bit_and_0f a = omega (
  arith,
  and_low_digit a 15,
  and_low_digit (a / 2) 7,
  and_low_digit (a / 2 / 2) 3,
  and_low_digit (a / 2 / 2 / 2) 1,
  and-zero_below (a / 2 / 2 / 2 / 2) (a / 2 / 2 / 2 / 2) (omega arith),
)

-- `a & 0xFF`.
pub bit_and_ff : (a : ℕ) → bit_and a 0xFF ≡ a % 2 ^ 8
bit_and_ff a = omega (
  arith,
  and_low_digit a 255,
  and_low_digit (a / 2) 127,
  and_low_digit (a / 2 / 2) 63,
  and_low_digit (a / 2 / 2 / 2) 31,
  bit_and_0f (a / 2 / 2 / 2 / 2),
)

-- Over a small range, every value is checked by evaluation.
unfoldable pub holds_to : ℕ → (ℕ → Bool) → Bool
holds_to zero test = true
holds_to (suc last) test = holds_to last test && test last

pub holds_to_sound :
    (bound value : ℕ) (test : ℕ → Bool)
    → value < bound
    → holds_to bound test ≡ true
    → test value ≡ true
unfolding holds_to
holds_to_sound zero value test lt h = absurd (omega arith)
holds_to_sound (suc last) value test lt h = ground (arith, holds_to_sound last value test)
