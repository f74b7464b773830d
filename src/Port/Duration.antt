-- ===== src/Port/Duration.antt =====
-- `bctbx_time_string_to_sec` of src/utils/port.c, over `strtol` of the language, written out, with a
-- `long` of 64 bits. A text is the list of its bytes without the final zero, and a product that leaves
-- the 32 bits of an `int`, undefined in C, is `none`. No text at all, for which the source gives 0, is
-- left out.
pub mod Units
use bctoolbox.Common.{
  ℕ, zero, suc, ◌+◌, ◌-◌, ◌*◌, ◌%◌, ◌^◌, min, Bool, true, false, ◌&&◌, ◌||◌, Option, none, some, [],
  ◌∷◌, length, leb, ltb, ◌==◌, if◌then◌else◌,
}
use bctoolbox.Common.Int.{ℤ, pos, negsuc, pos_part, neg_part, sub_ℕ}
use bctoolbox.Port.Hex.{Bytes}

abbrev pub is_digit : ℕ → Bool
is_digit c = leb b'0' c && leb c b'9'

abbrev pub is_space : ℕ → Bool
is_space c = c == b' ' || (leb 9 c && leb c 13)

-- The digits in front of a text: their value, and what follows them.
abbrev pub scan_digits : (acc : ℕ) → Bytes → ℕ × Bytes
scan_digits acc [] = (acc, [])
scan_digits acc (c ∷ s) =
    let more = scan_digits (acc * 10 + (c - b'0')) s in if is_digit c then more else (acc, c ∷ s)

-- A number that leaves the range is the end of the range.
abbrev pub scan_number : (negative : Bool) → Bytes → Option (ℤ × Bytes)
scan_number negative [] = none
scan_number negative (c ∷ s) =
    let (n, rest) = scan_digits 0 (c ∷ s) in
    let number = if negative then sub_ℕ 0 (min n (2 ^ 63)) else pos (min n (2 ^ 63 - 1)) in
    if is_digit c then some (number, rest) else none

abbrev pub scan_sign : Bytes → Option (ℤ × Bytes)
scan_sign [] = none
scan_sign (c ∷ s) =
    if c == b'-'
    then scan_number true s
    else if c == b'+'
    then scan_number false s
    else scan_number false (c ∷ s)

abbrev pub skip_spaces : Bytes → Bytes
skip_spaces [] = []
skip_spaces (c ∷ s) = let rest = skip_spaces s in if is_space c then rest else c ∷ s

-- `strtol`: where there is no number, 0, and the whole text follows.
abbrev pub or_nothing : Bytes → Option (ℤ × Bytes) → ℤ × Bytes
or_nothing s none = (pos 0, s)
or_nothing s (some answer) = answer

unfoldable pub strtol : Bytes → ℤ × Bytes
strtol s = or_nothing s (scan_sign (skip_spaces s))

-- A `long` as an `int32_t`, and that as a `uint32_t`.
abbrev pub to_u32 : ℤ → ℕ
to_u32 (pos n) = n % 2 ^ 32
to_u32 (negsuc n) = 2 ^ 32 - 1 - n % 2 ^ 32

abbrev pub to_i32 : ℤ → ℤ
to_i32 n = let u = to_u32 n in if ltb u (2 ^ 31) then pos u else negsuc (2 ^ 32 - 1 - u)

-- The seconds that a suffix stands for.
abbrev pub unit_of : ℕ → Option ℕ
unit_of c =
    if c == b'Y'
    then some (365 * 24 * 3600)
    else if c == b'M'
    then some (30 * 24 * 3600)
    else if c == b'W'
    then some (7 * 24 * 3600)
    else if c == b'd'
    then some (24 * 3600)
    else if c == b'h'
    then some 3600
    else if c == b'm'
    then some 60
    else if c == b's'
    then some 1
    else none

abbrev pub times : ℤ → ℕ → ℤ
times a f = sub_ℕ (pos_part a * f) (neg_part a * f)

abbrev pub in_int32 : ℤ → Bool
in_int32 a = ltb (pos_part a) (2 ^ 31) && leb (neg_part a) (2 ^ 31)

-- What follows a number: its suffix, or the end of the text. `go` is the loop on what follows that.
abbrev pub add_unit : Option ℕ → (n : ℤ) → (go : ℕ → Option ℕ) → (ret : ℕ) → Option ℕ
add_unit none n go ret = go ret
add_unit (some f) n go ret =
    let more = go ((ret + to_u32 (times n f)) % 2 ^ 32) in
    if in_int32 (times n f) then more else none

abbrev pub add_number : ℤ × Bytes → (go : Bytes → ℕ → Option ℕ) → (ret : ℕ) → Option ℕ
add_number (long, []) go ret = some ((ret + to_u32 (to_i32 long)) % 2 ^ 32)
add_number (long, c ∷ p) go ret = add_unit (unit_of c) (to_i32 long) (go p) ret

-- Each round takes a byte at least.
unfoldable pub time_loop : (fuel : ℕ) → Bytes → (ret : ℕ) → Option ℕ
time_loop zero s ret = none
time_loop (suc k) [] ret = some ret
time_loop (suc k) (b ∷ s) ret = add_number (strtol (b ∷ s)) (λ p r. time_loop k p r) ret

unfoldable pub time_string_to_sec : Bytes → Option ℕ
time_string_to_sec time_string = time_loop (length time_string + 1) time_string 0
