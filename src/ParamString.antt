-- ===== src/ParamString.antt =====
-- src/param_string.c: looking up a parameter in a string such as "profile=0;level=10". A C string is
-- the list of its bytes, and a pointer into it an offset; `none` is a run that does not end, or a
-- copy with a negative length.
pub mod Text
pub mod Search
pub mod Last
pub mod Value
use bctoolbox.Common.{
  ℕ, zero, suc, ◌+◌, ◌-◌, ◌%◌, ◌^◌, Bool, true, false, ◌&&◌, ◌||◌, Option, none, some, List, [],
  ◌∷◌, ltb, leb, ◌==◌, if◌then◌else◌, length, take, drop,
}
use bctoolbox.Common.Int.{ℤ, pos, negsuc, ltb_ℤ, to_int}

abbrev pub Bytes : Type 0
Bytes = List ℕ

-- `s[i]`: the final zero, and here all beyond it, reads as 0.
abbrev pub byte_at : Bytes → ℕ → ℕ
byte_at [] i = 0
byte_at (c ∷ s) zero = c
byte_at (c ∷ s) (suc i) = byte_at s i

abbrev pub starts_with : (needle s : Bytes) → Bool
starts_with [] s = true
starts_with (c ∷ needle) [] = false
starts_with (c ∷ needle) (b ∷ s) = c == b && starts_with needle s

-- `strstr` and `strchr`, as offsets.
unfoldable pub strstr : (s needle : Bytes) → Option ℕ
strstr [] needle = if starts_with needle [] then some 0 else none
strstr (b ∷ s) needle =
    if starts_with needle (b ∷ s)
    then some 0
    else elim (strstr s needle) [ none ↦ none | some j ↦ some (suc j) ]

unfoldable pub strchr : Bytes → ℕ → Option ℕ
strchr [] c = none
strchr (b ∷ s) c =
    if b == c then some 0 else elim (strchr s c) [ none ↦ none | some j ↦ some (suc j) ]

-- `p[i]` of an `int`; a byte in front of the string reads as 0 too.
abbrev pub byte_behind : Bytes → (p : ℕ) → ℤ → ℕ
byte_behind s p (pos n) = byte_at s (p + n)
byte_behind s p (negsuc n) = if ltb n p then byte_at s (p - n - 1) else 0

-- The tests at an occurrence of the name: not a part of a longer name.
unfoldable pub is_param_at : (fmtp param : Bytes) → ℕ → Bool
is_param_at fmtp param p =
    let behind_name = byte_behind fmtp p (to_int (length param)) in
    if p == 0
    then behind_name == b'='
    else (byte_at fmtp (p - 1) == b';' || byte_at fmtp (p - 1) == b' ') && behind_name == b'='

unfoldable pub find_param_loop : (fuel : ℕ) (fmtp param : Bytes) → ℕ → Option (Option ℕ)
find_param_loop zero fmtp param i = none
find_param_loop (suc fuel) fmtp param i = elim (strstr (drop i fmtp) param) [
  | none ↦ some none
  | some j ↦
      if is_param_at fmtp param (i + j)
      then some (some (i + j))
      else find_param_loop fuel fmtp param (i + j + length param)
]

unfoldable pub find_param_occurence_of : (fuel : ℕ) (fmtp param : Bytes) → Option (Option ℕ)
find_param_occurence_of fuel fmtp param = find_param_loop fuel fmtp param 0

-- `lastpos` is the offset of the last occurrence so far; both loops have the fuel `m`.
unfoldable pub find_last_loop :
    (fuel m : ℕ) (fmtp param : Bytes) → ℕ → (lastpos : Option ℕ) → Option (Option ℕ)
find_last_loop zero m fmtp param i lastpos = none
find_last_loop (suc fuel) m fmtp param i lastpos =
    elim (find_param_occurence_of m (drop i fmtp) param) [
      | none ↦ none
      | some none ↦ some lastpos
      | some (some j) ↦ find_last_loop fuel m fmtp param (i + j + length param) (some (i + j))
    ]

unfoldable pub find_last_param_occurence_of : (fuel : ℕ) (fmtp param : Bytes) → Option (Option ℕ)
find_last_param_occurence_of fuel fmtp param = find_last_loop fuel fuel fmtp param 0 none

-- `result_len - 1` wraps around at 0.
unfoldable pub copied : (result_len size : ℕ) → ℤ
copied result_len size =
    let room = to_int ((result_len + 2 ^ 64 - 1) % 2 ^ 64) in
    let wanted = to_int size in if ltb_ℤ room wanted then room else wanted

abbrev pub copy_value : Bytes → ℤ → Option (Bool × Bytes)
copy_value value (pos n) = some (true, take n value)
copy_value value (negsuc n) = none

-- The text behind the `=` at offset `e` behind `p`, up to the next `;` or the end.
unfoldable pub value_from :
    Option ℕ → (p : ℕ) (param_string : Bytes) (result_len : ℕ) → Option (Bool × Bytes)
value_from none p param_string result_len = some (false, [])
value_from (some e) p param_string result_len =
    let value = drop (p + e + 1) param_string in
    let size : ℕ = elim (strchr value b';') [ none ↦ length value | some n ↦ n ] in
    copy_value value (copied result_len size)

-- The result is the returned flag and the text in the buffer.
unfoldable pub get_value :
    (fuel : ℕ) (param_string param_name : Bytes) (result_len : ℕ) → Option (Bool × Bytes)
get_value fuel param_string param_name result_len =
    elim (find_last_param_occurence_of fuel param_string param_name) [
      | none ↦ none
      | some none ↦ some (false, [])
      | some (some p) ↦ value_from (strchr (drop p param_string) b'=') p param_string result_len
    ]

abbrev pub is_true : Bytes → Bool
is_true (a ∷ b ∷ c ∷ d ∷ []) = a == b't' && (b == b'r' && (c == b'u' && d == b'e'))
is_true _ = false

-- The buffer is five bytes long.
unfoldable pub get_bool_value : (fuel : ℕ) (param_string param_name : Bytes) → Option Bool
get_bool_value fuel param_string param_name = elim (get_value fuel param_string param_name 5) [
  | none ↦ none
  | some (found, result) ↦ some (found && is_true result)
]
