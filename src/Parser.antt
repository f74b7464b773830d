-- ===== src/Parser.antt =====
-- src/parser.c: percent escapes of C strings, which are lists of bytes without their final zero.
-- A table of rules is a function on the bytes. A write outside its buffer is `none`.
pub mod Escape
pub mod Rules
pub mod Unescape
pub mod RoundTrip
use bctoolbox.Common.{
  ℕ, zero, suc, ◌+◌, ◌-◌, ◌*◌, ◌/◌, ◌%◌, ◌^◌, max, Bool, true, false, ◌&&◌, ◌||◌, Option, none,
  some, List, [], ◌∷◌, ◌++◌, ltb, leb, ◌==◌, if◌then◌else◌, length, drop,
}
use bctoolbox.Common.Int.{ℤ, pos, negsuc, pos_part, neg_part, sub_ℕ}

abbrev pub Bytes : Type 0
Bytes = List ℕ

-- `bctbx_noescape_rules_t`
abbrev pub Rules : Type 0
Rules = ℕ → ℕ

-- A digit of `%02x`.
pub hex_digit : ℕ → ℕ
hex_digit d = if ltb d 10 then b'0' + d else b'a' + (d - 10)

-- What `snprintf(…, "%%%02x", c)` prints of a byte.
pub percent : ℕ → Bytes
unfolding hex_digit
percent c = b'%' ∷ hex_digit (c / 16) ∷ hex_digit (c % 16) ∷ []

-- The growth of the buffer before a character is written.
pub grown : (orig_size outbuf_size index : ℕ) → ℕ
grown orig_size outbuf_size index =
    if ltb outbuf_size (index + 3) then outbuf_size + max (orig_size / 2) 3 else outbuf_size

-- The buffer holds `outbuf_size + 1` bytes, of which `out` are written. A print that `snprintf` would
-- cut short is `none` too, and so is an overflow of `i`, an `int`.
pub escape_loop : Rules → (orig_size outbuf_size i : ℕ) → (out buff : Bytes) → Option Bytes
unfolding grown
escape_loop noescapes orig_size outbuf_size i out [] =
    if leb (length out) outbuf_size then some out else none
escape_loop noescapes orig_size outbuf_size i out (c ∷ buff) =
    let size = grown orig_size outbuf_size (length out) in
    let plain = escape_loop noescapes orig_size size (i + 1) (out ++ c ∷ []) buff in
    let printed = escape_loop noescapes orig_size size (i + 1) (out ++ percent c) buff in
    if leb (2 ^ 31) (i + 1)
    then none
    else if noescapes c == 1
    then if leb (length out) size then plain else none
    else if leb (length out + 3) size
    then printed
    else none

pub escape : Bytes → Rules → Option Bytes
unfolding escape_loop
escape buff noescapes = escape_loop noescapes (length buff) (length buff) 0 [] buff

-- The index that `(unsigned int)c` gives for a `char`, which is signed.
pub char_index : ℕ → ℕ
char_index c = if ltb c 128 then c else 2 ^ 32 - 256 + c

-- The value of a signed `char`.
pub char_value : ℕ → ℤ
char_value c = if ltb c 128 then pos c else negsuc (255 - c)

abbrev pub allow : Rules → ℕ → Rules
allow noescapes i c = if c == i then 1 else noescapes c

-- A table has 257 entries.
pub add_list : Rules → Bytes → Option Rules
unfolding char_index
add_list noescapes [] = some noescapes
add_list noescapes (c ∷ allowed) =
    let rest = add_list (allow noescapes (char_index c)) allowed in
    if ltb (char_index c) 257 then rest else none

-- `memset(table + i, 1, n)`
pub set_range : Rules → (i n : ℕ) → Option Rules
set_range noescapes i n =
    if leb (i + n) 257
    then some (λ c. if leb i c && ltb c (i + n) then 1 else noescapes c)
    else none

abbrev pub size_of : ℤ → ℕ
size_of (pos n) = n
size_of (negsuc n) = 2 ^ 64 - 1 - n

-- `last - first + 1` of two chars, as the `size_t` that `memset` takes.
pub range_size : (first last : ℕ) → ℕ
unfolding char_value
range_size first last = size_of (
    sub_ℕ (pos_part (char_value last) + neg_part (char_value first) + 1)
      (neg_part (char_value last) + pos_part (char_value first)))

pub add_range : Rules → (first last : ℕ) → Option Rules
unfolding char_index range_size set_range
add_range noescapes first last = set_range noescapes (char_index first) (range_size first last)

abbrev pub and_then : Option Rules → (Rules → Option Rules) → Option Rules
and_then none f = none
and_then (some r) f = f r

pub add_alfanums : Rules → Option Rules
add_alfanums noescapes =
    and_then (add_range noescapes b'0' b'9')
      λ r. and_then (add_range r b'A' b'Z') λ r. add_range r b'a' b'z'

abbrev pub is_escaped_char : Bytes → Bool
is_escaped_char (c ∷ x ∷ y ∷ a) = c == b'%'
is_escaped_char _ = false

pub hex_value : ℕ → Option ℕ
hex_value c =
    if leb b'0' c && leb c b'9'
    then some (c - b'0')
    else if leb b'a' c && leb c b'f'
    then some (c - b'a' + 10)
    else if leb b'A' c && leb c b'F'
    then some (c - b'A' + 10)
    else none

pub is_space : ℕ → Bool
is_space c = c == b' ' || (leb 9 c && leb c 13)

-- A field of two bytes with the values of its digits: a `0x` with no digit behind it fails.
pub scan_pair : (x y : ℕ) → Option ℕ → Option ℕ → Option ℕ
scan_pair x y (some v) (some w) = some (16 * v + w)
scan_pair x y (some v) none = if x == b'0' && (y == b'x' || y == b'X') then none else some v
scan_pair x y none (some w) =
    if x == b'+' then some w else if x == b'-' then some ((2 ^ 32 - w) % 2 ^ 32) else none
scan_pair x y none none = none

-- `sscanf(a, "%02x", &tmp)` at a field of at most two bytes: two digits, one digit, or a sign and a
-- digit; `none` is a matching failure, after which `tmp` is as it was.
pub scan_field : Bytes → Option ℕ
unfolding hex_value scan_pair
scan_field [] = none
scan_field (x ∷ []) = hex_value x
scan_field (x ∷ y ∷ a) = scan_pair x y (hex_value x) (hex_value y)

-- White space in front of the field is skipped.
pub scan_hex : Bytes → Option ℕ
unfolding is_space scan_field
scan_hex [] = none
scan_hex (c ∷ a) = if is_space c then scan_hex a else scan_field (c ∷ a)

-- `bctbx_get_char`: the byte, and how many bytes it took. `tmp` is the value that the variable has
-- before it is read, which the code does not set.
pub get_char : (tmp : ℕ) → Bytes → ℕ × ℕ
get_char tmp [] = (0, 1)
get_char tmp (c ∷ a) =
    if is_escaped_char (c ∷ a)
    then (elim (scan_hex a) [ none ↦ tmp % 256 | some v ↦ v % 256 ], 3)
    else (c, 1)

abbrev pub prepend : ℕ → Option Bytes → Option Bytes
prepend c none = none
prepend c (some rest) = some (c ∷ rest)

-- `i += n`: a step over the end of the string, behind which the loops read on, is `none`.
abbrev pub skip : ℕ → Bytes → Option Bytes
skip zero buff = some buff
skip (suc n) [] = none
skip (suc n) (c ∷ buff) = skip n buff

-- The loop of `bctbx_unescaped_string`, on fuel, over what is left of the buffer.
pub unescape_loop : (fuel tmp : ℕ) → Bytes → Option Bytes
unescape_loop zero tmp buff = none
unescape_loop (suc fuel) tmp [] = some []
unescape_loop (suc fuel) tmp (c ∷ buff) =
    let (out, n) = get_char tmp (c ∷ buff) in
    elim (skip n (c ∷ buff)) [ none ↦ none | some rest ↦ prepend out (unescape_loop fuel tmp rest) ]

pub unescaped_string : (tmp : ℕ) → Bytes → Option Bytes
unfolding unescape_loop
unescaped_string tmp buff = unescape_loop (length buff + 1) tmp buff

-- The loop of `bctbx_unescaped_string_only_chars_in_rules`: its test of an escape is at the bytes
-- behind those that it has just read.
pub unescape_rules_loop : (fuel tmp : ℕ) → Rules → (max_len : ℕ) → (out buff : Bytes) → Option Bytes
unescape_rules_loop zero tmp unescape max_len out buff = none
unescape_rules_loop (suc fuel) tmp unescape max_len out [] =
    if ltb (length out) max_len then some out else none
unescape_rules_loop (suc fuel) tmp unescape max_len out (b ∷ buff) =
    let (c, n) = get_char tmp (b ∷ buff) in
    elim (skip n (b ∷ buff)) [
      | none ↦ none
      | some rest ↦
          let kept = unescape_rules_loop fuel tmp unescape (max_len + 3) (out ++ percent c) rest in
          let plain = unescape_rules_loop fuel tmp unescape max_len (out ++ c ∷ []) rest in
          if ltb (length out) max_len
          then if unescape c == 0 && is_escaped_char rest
            then if ltb (length out + 3) (max_len + 3) then kept else none
            else plain
          else none
    ]

pub unescaped_string_only_chars_in_rules : (tmp : ℕ) → Bytes → Rules → Option Bytes
unfolding unescape_rules_loop
unescaped_string_only_chars_in_rules tmp buff unescape =
    unescape_rules_loop (length buff + 1) tmp unescape (length buff + 1) [] buff
