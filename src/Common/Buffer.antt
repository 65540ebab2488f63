-- ===== src/Common/Buffer.antt =====
-- Byte arrays that the source writes in place: a function from the index to the byte, and the
-- loops that write a run of bytes.
use Prim.Native.Nat.{ℕ, zero, suc, ◌+◌, ◌-◌, ◌≤◌, ◌<◌}
use mathlib.Core.Path.{◌≡◌}
use mathlib.Core.Logic.{◌⊎◌}
use mathlib.Core.Bool.{◌&&◌}
use native.Mathlib.Omega.{arith}
use swbt_daemon.Common.Tests.{ltb, leb, ◌==◌, if◌then◌else◌}

abbrev pub Buffer : Type 0
Buffer = ℕ → ℕ

-- out[i] = v
abbrev pub store : Buffer → ℕ → ℕ → Buffer
store out i v j = if j == i then v else out j

-- for (index = 0; index < n; ++index) out[off + index] = f(index)
unfoldable pub fill : Buffer → ℕ → ℕ → (ℕ → ℕ) → Buffer
fill out off zero f = out
fill out off (suc n) f = store (fill out off n f) (off + n) (f n)

-- The loop's effect at every index.
pub fill_lem :
    (out : Buffer) (off n : ℕ) (f : ℕ → ℕ) (j : ℕ)
    → fill out off n f j ≡ (if leb off j && ltb j (off + n) then f (j - off) else out j)
unfolding fill
fill_lem out off zero f j = ground arith
fill_lem out off (suc n) f j = ground (arith, fill_lem out off n f j, same)
  where
    same : off + n ≡ j → f n ≡ f (j - off)
    same e = ground arith

pub fill_inside :
    (out : Buffer) (off n : ℕ) (f : ℕ → ℕ) (i : ℕ) → i < n → fill out off n f (off + i) ≡ f i
fill_inside out off n f i h = ground (arith, fill_lem out off n f (off + i), back)
  where
    back : off + i - off ≡ i
    back = omega arith

pub fill_outside :
    (out : Buffer) (off n : ℕ) (f : ℕ → ℕ) (j : ℕ)
    → (j < off) ⊎ (off + n ≤ j)
    → fill out off n f j ≡ out j
fill_outside out off n f j h = ground (arith, fill_lem out off n f j)
