-- ===== src/Port/Hex.antt =====
-- src/utils/port.c: numbers and bytes as hexadecimal texts. A text is the list of its bytes, with a
-- final zero where the source writes one; a read behind its end is `none`. `x & 0x0F` is the rest
-- by 16, and a shift a product or a quotient, cut to the width of its type.
pub mod RoundTrip
use Prim.Native.Nat.{bit_or}
use bctoolbox.Common.{
  ℕ, zero, suc, ◌+◌, ◌-◌, ◌*◌, ◌/◌, ◌%◌, ◌^◌, ◌&&◌, Option, none, some, List, [], ◌∷◌, ltb,
  if◌then◌else◌,
}

abbrev pub Bytes : Type 0
Bytes = List ℕ

-- `bctbx_char_to_byte`
unfoldable pub char_to_byte : ℕ → ℕ
char_to_byte input_char =
    if ltb 0x29 input_char && ltb input_char 0x3A
    then (input_char + 256 - 0x30) % 256
    else if ltb 0x60 input_char && ltb input_char 0x67
    then input_char - 0x57
    else if ltb 0x40 input_char && ltb input_char 0x47
    then input_char - 0x37
    else 0

-- `bctbx_byte_to_char`
unfoldable pub byte_to_char : ℕ → ℕ
byte_to_char input_byte =
    let crop = input_byte % 16 in if ltb crop 0x0A then crop + 0x30 else crop + 0x57

-- `bctbx_str_to_uint8`: the bytes written; the last character of an odd number is left.
unfoldable pub str_to_uint8 : Bytes → Bytes
str_to_uint8 [] = []
str_to_uint8 (c ∷ []) = []
str_to_uint8 (c ∷ d ∷ s) = bit_or (char_to_byte c * 2 ^ 4) (char_to_byte d) % 2 ^ 8 ∷ str_to_uint8 s

-- `bctbx_int8_to_str`
unfoldable pub int8_to_str : Bytes → Bytes
int8_to_str [] = []
int8_to_str (b ∷ s) = byte_to_char (b / 2 ^ 4 % 16) ∷ byte_to_char (b % 16) ∷ int8_to_str s

-- The last `k` digits of a number, the high one first, and the final zero.
unfoldable pub put_digits : (k : ℕ) → ℕ → Bytes
put_digits zero n = 0 ∷ []
put_digits (suc k) n = byte_to_char (n / 2 ^ (4 * k) % 16) ∷ put_digits k n

-- `k` digits, each at its place in a number of `width` bits.
unfoldable pub get_digits : (width k : ℕ) → Bytes → (acc : ℕ) → Option ℕ
get_digits width zero s acc = some acc
get_digits width (suc k) [] acc = none
get_digits width (suc k) (c ∷ s) acc =
    get_digits width k s (bit_or acc (char_to_byte c * 2 ^ (4 * k) % 2 ^ width))

-- `bctbx_uint32_to_str`, `bctbx_str_to_uint32`, and the same of 64 bits
unfoldable pub uint32_to_str : ℕ → Bytes
uint32_to_str input_uint32 = put_digits 8 input_uint32

unfoldable pub str_to_uint32 : Bytes → Option ℕ
str_to_uint32 input_string = get_digits 32 8 input_string 0

unfoldable pub uint64_to_str : ℕ → Bytes
uint64_to_str input_uint64 = put_digits 16 input_uint64

unfoldable pub str_to_uint64 : Bytes → Option ℕ
str_to_uint64 input_string = get_digits 64 16 input_string 0
