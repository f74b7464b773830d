-- ===== src/Port/Text.antt =====
-- src/utils/port.c: helpers on texts, which are the lists of their bytes without the final zero. A
-- write outside the memory that was allocated is `none`; that no memory is left is left out.
pub mod Path
pub mod Concat
use bctoolbox.Common.{
  ℕ, zero, suc, ◌+◌, ◌*◌, ◌%◌, ◌^◌, Bool, ◌&&◌, Option, none, some, List, [], ◌∷◌, ◌++◌, length,
  take, drop, leb, ltb, ◌==◌, if◌then◌else◌,
}
use bctoolbox.Common.Int.{ℤ, pos, negsuc, ltb_ℤ, to_int}
use bctoolbox.Port.Hex.{Bytes}

-- `bctbx_strndup`: an `int` that leaves its 32 bits is `none`, and so is the write of the final zero
-- in front of the memory, where the number is negative.
abbrev pub first_bytes : Bytes → ℤ → Option Bytes
first_bytes str (pos n) = if ltb (n + 1) (2 ^ 31) then some (take n str) else none
first_bytes str (negsuc n) = none

unfoldable pub strndup : Bytes → ℤ → Option Bytes
strndup str n = let size = to_int (length str) in first_bytes str (if ltb_ℤ n size then n else size)

-- `strrchr`: the place of the last byte `c`.
abbrev pub strrchr : ℕ → Bytes → Option ℕ
strrchr c [] = none
strrchr c (b ∷ s) = elim (strrchr c s) [
  | some i ↦ some (suc i)
  | none ↦ if b == c then some 0 else none
]

abbrev pub or_else : Option ℕ → Option ℕ → Option ℕ
or_else none other = other
or_else (some i) other = some i

-- The last `/`, or the last `\` where there is none.
abbrev pub last_separator : Bytes → Option ℕ
last_separator path = or_else (strrchr b'/' path) (strrchr 0x5c path)

-- The difference of two pointers, as an `int`.
abbrev pub up_to : Bytes → Option ℕ → Option Bytes
up_to path none = some (b'.' ∷ [])
up_to path (some i) = strndup path (to_int i)

abbrev pub after_separator : Bytes → Option ℕ → Bytes
after_separator path none = path
after_separator path (some i) = drop (suc i) path

-- `bctbx_dirname`
unfoldable pub dirname : Bytes → Option Bytes
dirname path = up_to path (last_separator path)

-- `bctbx_basename`
unfoldable pub basename : Bytes → Bytes
basename path = after_separator path (last_separator path)

-- `bctbx_replace`
unfoldable pub replace : Bytes → (c n : ℕ) → Bytes
replace [] c n = []
replace (b ∷ str) c n = (if b == c then n else b) ∷ replace str c n

-- The loop of `bctbx_concat`; the final zero has its place behind what is written.
unfoldable pub concat_loop : (allocated : ℕ) → (result : Bytes) → List Bytes → Option Bytes
concat_loop allocated result [] = if leb (length result + 1) allocated then some result else none
concat_loop allocated result (s ∷ more) =
    let room =
      if ltb allocated (length result + length s + 1)
      then (allocated + length s) * 2 % 2 ^ 64
      else allocated in
    let rest = concat_loop room (result ++ s) more in
    if leb (length result + length s) room then rest else none

-- `bctbx_concat`
unfoldable pub concat : List Bytes → Option Bytes
concat strs = concat_loop 100 [] strs
