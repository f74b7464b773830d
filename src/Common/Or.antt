-- ===== src/Common/Or.antt =====
-- Inclusive or of numbers whose digits do not meet: their sum.
use Prim.Native.Nat.{ℕ, zero, suc, max, ◌+◌, ◌*◌, ◌/◌, ◌%◌, ◌^◌, ◌<◌, ◌≤◌, bit_or, bit_or-bitwise}
use mathlib.Core.Path.{◌≡◌, ap}
use native.Mathlib.Nat.{two-pow-succ, mul-add}
use native.Mathlib.Omega.{arith}
use bctoolbox.Common.Xor.{same_digits}

bit_or-halves : (a b : ℕ) → bit_or a b ≡ bit_or (a / 2) (b / 2) * 2 + max (a % 2) (b % 2)
bit_or-halves zero b = omega (arith, bit_or-bitwise 0 b, bit_or-bitwise 0 (b / 2))
bit_or-halves (suc a) b = omega (
  arith,
  bit_or-bitwise (suc a) b,
  bit_or-bitwise (suc a / 2) (b / 2),
  same_digits max (suc a / 2) (b / 2) a (suc a / 2) (omega arith) (omega arith),
)

bit_or-nothing : (n a : ℕ) → a ≤ n → bit_or a 0 ≡ a
bit_or-nothing n zero h = bit_or-bitwise 0 0
bit_or-nothing zero (suc a) h = absurd (omega arith)
bit_or-nothing (suc n) (suc a) h =
    ground (arith, bit_or-halves (suc a) 0, bit_or-nothing n (suc a / 2) (omega arith))

-- A number below a power of two, and a multiple of that power.
pub bit_or-low : (k a low : ℕ) → low < 2 ^ k → bit_or (a * 2 ^ k) low ≡ a * 2 ^ k + low
bit_or-low zero a low h = ground (arith, bit_or-nothing a a (omega arith))
bit_or-low (suc k) a low h =
    let half : a * 2 ^ suc k ≡ 2 * (a * 2 ^ k) =
      omega (arith, ap (λ t. a * t) (two-pow-succ k), mul-add a (2 ^ k) (2 ^ k)) in
    ground (arith, bit_or-halves (a * 2 ^ suc k) low, half, bit_or-low k a (low / 2) (omega arith))
