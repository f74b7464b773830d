-- ===== src/Port/Hex/RoundTrip.antt =====
-- The hexadecimal texts of src/utils/port.c are read back.
use native.Mathlib.Nat.{
  div-div-eq-div-mul, mod-eq_of_lt, pow-le-pow_right, add-mul, mul-le-mul_right, one-le-pow,
}
use Prim.Native.Nat.{bit_or}
use bctoolbox.Common.{
  ℕ, zero, suc, ◌+◌, ◌*◌, ◌/◌, ◌%◌, ◌^◌, ◌<◌, ◌≤◌, ◌≡◌, refl, sym, ap, ◌∙◌, some, [], ◌∷◌, arith,
}
use bctoolbox.Common.Or.{bit_or-low}
use bctoolbox.Port.Hex.{
  Bytes, char_to_byte, byte_to_char, str_to_uint8, int8_to_str, put_digits, get_digits,
  uint32_to_str, str_to_uint32, uint64_to_str, str_to_uint64,
}

char_to_byte-byte_to_char : (d : ℕ) → char_to_byte (byte_to_char d) ≡ d % 16
unfolding char_to_byte byte_to_char
char_to_byte-byte_to_char d = ground arith

abbrev AreBytes : Bytes → Type 0
AreBytes [] = Unit
AreBytes (b ∷ s) = (b < 256) × AreBytes s

-- The bytes of a buffer are those that are read from the text that they are written as.
pub str_to_uint8-int8_to_str : (s : Bytes) → AreBytes s → str_to_uint8 (int8_to_str s) ≡ s
unfolding str_to_uint8 int8_to_str
str_to_uint8-int8_to_str [] h = refl
str_to_uint8-int8_to_str (b ∷ s) h =
    let high : b / 2 ^ 4 % 16 % 16 ≡ b / 2 ^ 4 = omega (arith, h.0) in
    let low : b % 16 % 16 ≡ b % 16 = omega arith in
    let joined : (b / 2 ^ 4 * 2 ^ 4 + b % 16) % 2 ^ 8 ≡ b = omega (arith, h.0) in
    rw
      (
        char_to_byte-byte_to_char (b / 2 ^ 4 % 16),
        char_to_byte-byte_to_char (b % 16),
        high,
        low,
        bit_or-low 4 (b / 2 ^ 4) (b % 16) (omega arith),
        joined,
        str_to_uint8-int8_to_str s h.1,
      )
      refl

-- The digits above the last `k`, at their places.
abbrev above : (k n : ℕ) → ℕ
above k n = n / 2 ^ (4 * k) * 2 ^ (4 * k)

power-suc : (k : ℕ) → 2 ^ (4 * suc k) ≡ 2 ^ (4 * k) * 16
power-suc k =
    let more : 4 * suc k ≡ suc (suc (suc (suc (4 * k)))) = omega arith in
    ap (λ t. 2 ^ t) more ∙ omega arith

-- The last digit of `q`, and the others, in units.
digit-fits : (unit q : ℕ) → 0 < unit → q % 16 * unit < unit * 16
digit-fits unit q some_unit =
    let low : q % 16 * unit ≤ 15 * unit = mul-le-mul_right unit (omega arith) in omega arith

digit-joins : (unit q : ℕ) → q / 16 * (unit * 16) + q % 16 * unit ≡ q * unit
digit-joins unit q =
    let whole : q / 16 * 16 + q % 16 ≡ q = omega arith in
    let place : q / 16 * (unit * 16) ≡ q / 16 * 16 * unit = grind arith in
    omega (arith, place, add-mul (q / 16 * 16) (q % 16) unit, ap (λ t. t * unit) whole)

above-suc : (k n : ℕ) → bit_or (above (suc k) n) (n / 2 ^ (4 * k) % 16 * 2 ^ (4 * k)) ≡ above k n
above-suc k n =
    let unit = 2 ^ (4 * k) in
    let q = n / unit in
    let quotient : n / 2 ^ (4 * suc k) ≡ q / 16 =
      ap (λ t. n / t) (power-suc k) ∙ sym (div-div-eq-div-mul n unit 16) in
    let fits : q % 16 * unit < 2 ^ (4 * suc k) =
      omega (arith, power-suc k, digit-fits unit q (one-le-pow (4 * k) 2 (omega arith))) in
    bit_or-low (4 * suc k) (n / 2 ^ (4 * suc k)) (q % 16 * unit) fits
    ∙ ap (λ t. t * 2 ^ (4 * suc k) + q % 16 * unit) quotient
    ∙ ap (λ t. q / 16 * t + q % 16 * unit) (power-suc k)
    ∙ digit-joins unit q

module _ (width : ℕ) where
  get_digits-put_digits :
      (k n : ℕ) → 4 * k ≤ width → get_digits width k (put_digits k n) (above k n) ≡ some n
  unfolding get_digits put_digits
  get_digits-put_digits zero n h =
      let e : n / 2 ^ (4 * 0) * 2 ^ (4 * 0) ≡ n = omega arith in ap some e
  get_digits-put_digits (suc k) n h =
      let digit : n / 2 ^ (4 * k) % 16 % 16 ≡ n / 2 ^ (4 * k) % 16 = omega arith in
      let within : n / 2 ^ (4 * k) % 16 * 2 ^ (4 * k) < 2 ^ width = omega (
        arith,
        power-suc k,
        digit-fits (2 ^ (4 * k)) (n / 2 ^ (4 * k)) (one-le-pow (4 * k) 2 (omega arith)),
        pow-le-pow_right {n = 2} (omega arith) h,
      ) in
      rw
        (
          char_to_byte-byte_to_char (n / 2 ^ (4 * k) % 16),
          digit,
          mod-eq_of_lt within,
          above-suc k n,
        )
        (get_digits-put_digits k n (omega arith))

-- A number of 32 bits, or of 64, is the one that is read from the text that it is written as.
pub str_to_uint-uint_to_str :
    (n m : ℕ)
    → n < 2 ^ 32
    → m < 2 ^ 64
    → (str_to_uint32 (uint32_to_str n) ≡ some n) × (str_to_uint64 (uint64_to_str m) ≡ some m)
unfolding str_to_uint32 uint32_to_str str_to_uint64 uint64_to_str
str_to_uint-uint_to_str n m small wide =
    let no_digit : n / 2 ^ 32 * 2 ^ 32 ≡ 0 = omega arith in
    let no_other : m / 2 ^ 64 * 2 ^ 64 ≡ 0 = omega arith in
    let there = get_digits-put_digits 32 8 n (omega arith) in
    let there' = get_digits-put_digits 64 16 m (omega arith) in
    (rw no_digit at there, rw no_other at there')
