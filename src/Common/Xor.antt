-- ===== src/Common/Xor.antt =====
-- Exclusive or at variables, from the digits that the native operation stands for.
use Prim.Native.Nat.{
  ℕ, zero, suc, ◌+◌, ◌*◌, ◌/◌, ◌%◌, ◌≤◌, ◌<◌, bit_xor, digits, differ, bit_xor-bitwise,
}
use mathlib.Core.Path.{◌≡◌, refl}
use native.Mathlib.Omega.{arith}

-- The digits of `a` are fuel enough, whatever is done with two digits.
module _ (f : ℕ → ℕ → ℕ) where
  abbrev digits_of : ℕ → ℕ → ℕ → ℕ
  digits_of n a b = digits (λ b. b) f n a b

  pub same_digits :
      (x y fuel other : ℕ) → x ≤ fuel → x ≤ other → digits_of fuel x y ≡ digits_of other x y
  same_digits zero y zero zero _ _ = refl
  same_digits zero y zero (suc l) _ _ = refl
  same_digits zero y (suc k) zero _ _ = refl
  same_digits zero y (suc k) (suc l) _ _ = refl
  same_digits (suc x) y zero l h h' = absurd (omega arith)
  same_digits (suc x) y (suc k) zero h h' = absurd (omega arith)
  same_digits (suc x) y (suc k) (suc l) h h' =
      let rest = same_digits (suc x / 2) (y / 2) k l (omega arith) (omega arith) in rw rest refl

zero-bit_xor : (b : ℕ) → bit_xor 0 b ≡ b
zero-bit_xor b = bit_xor-bitwise 0 b

-- The lowest digit, and the others.
bit_xor_step : (a b : ℕ) → bit_xor a b ≡ bit_xor (a / 2) (b / 2) * 2 + differ (a % 2) (b % 2)
bit_xor_step zero b = omega (arith, zero-bit_xor b, zero-bit_xor (b / 2))
bit_xor_step (suc a) b = omega (
  arith,
  bit_xor-bitwise (suc a) b,
  bit_xor-bitwise (suc a / 2) (b / 2),
  same_digits differ (suc a / 2) (b / 2) a (suc a / 2) (omega arith) (omega arith),
)

differ-lt : (x y : ℕ) → x < 2 → y < 2 → differ x y < 2
differ-lt zero y p q = q
differ-lt (suc x) zero p q = p
differ-lt (suc x) (suc y) p q = let h = differ-lt x y (omega arith) (omega arith) in h

differ_twice : (x y : ℕ) → x < 2 → y < 2 → differ (differ x y) y ≡ x
differ_twice zero zero p q = refl
differ_twice zero (suc zero) p q = refl
differ_twice zero (suc (suc y)) p q = absurd (omega arith)
differ_twice (suc zero) zero p q = refl
differ_twice (suc zero) (suc zero) p q = refl
differ_twice (suc x) (suc (suc y)) p q = absurd (omega arith)
differ_twice (suc (suc x)) y p q = absurd (omega arith)

twice_fuel : (n a b : ℕ) → a + b ≤ n → bit_xor (bit_xor a b) b ≡ a
twice_fuel zero zero zero h = refl
twice_fuel zero (suc a) b h = absurd (omega arith)
twice_fuel zero zero (suc b) h = absurd (omega arith)
twice_fuel (suc n) a b h =
    let x = bit_xor a b in
    let half : x / 2 ≡ bit_xor (a / 2) (b / 2) =
      omega (arith, bit_xor_step a b, differ-lt (a % 2) (b % 2) (omega arith) (omega arith)) in
    let digit : x % 2 ≡ differ (a % 2) (b % 2) =
      omega (arith, bit_xor_step a b, differ-lt (a % 2) (b % 2) (omega arith) (omega arith)) in
    let again : bit_xor (x / 2) (b / 2) ≡ a / 2 =
      rw half (twice_fuel n (a / 2) (b / 2) (omega arith)) in
    let bits : differ (x % 2) (b % 2) ≡ a % 2 =
      rw digit (differ_twice (a % 2) (b % 2) (omega arith) (omega arith)) in
    omega (arith, bit_xor_step x b, again, bits)

pub bit_xor_twice : (a b : ℕ) → bit_xor (bit_xor a b) b ≡ a
bit_xor_twice a b = twice_fuel (a + b) a b (omega arith)
