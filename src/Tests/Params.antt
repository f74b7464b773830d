-- ===== src/Tests/Params.antt =====
-- The theorems about src/param_string.c at a concrete string.
use bctoolbox.Common.{zero, suc, ◌+◌, false, none, drop, ℕ, ◌≡◌, refl, true, some, [], ◌∷◌, arith}
use bctoolbox.ParamString.{
  Bytes, get_value, find_last_param_occurence_of, find_last_loop, find_param_occurence_of,
  find_param_loop, strstr, is_param_at, value_from, strchr, copied,
}
use bctoolbox.Common.Int.{to_int}

-- "a=1;ba=2;a=34" and "a".
abbrev params : Bytes
params =
    b'a' ∷ b'=' ∷ b'1' ∷ b';' ∷ b'b' ∷ b'a' ∷ b'=' ∷ b'2' ∷ b';' ∷ b'a' ∷ b'=' ∷ b'3' ∷ b'4' ∷ []

abbrev name : Bytes
name = b'a' ∷ []

-- The last `a` stands at 9, and its value fits in a buffer of 3 bytes.
find_last_a : find_last_param_occurence_of 20 params name ≡ some (some 9)
unfolding find_last_param_occurence_of find_last_loop find_param_occurence_of find_param_loop strstr
    is_param_at to_int
find_last_a = refl

get_value_of_a : get_value 20 params name 3 ≡ some (true, b'3' ∷ b'4' ∷ [])
unfolding get_value find_last_param_occurence_of find_last_loop find_param_occurence_of
    find_param_loop strstr is_param_at value_from strchr copied to_int
get_value_of_a = refl

strstr-nil : (s : Bytes) → strstr s [] ≡ some 0
unfolding strstr
strstr-nil [] = refl
strstr-nil (c ∷ s) = refl

-- With an empty name the search stays where it is: no fuel is enough.
find_param_loop-nil :
    (fuel i : ℕ) (s : Bytes) → is_param_at s [] i ≡ false → find_param_loop fuel s [] i ≡ none
unfolding find_param_loop
find_param_loop-nil zero i s other = refl
find_param_loop-nil (suc fuel) i s other =
    let here : i + 0 ≡ i = omega arith in
    rw (strstr-nil (drop i s), find_param_loop, here, other)
      (rw here (find_param_loop-nil fuel i s other))
