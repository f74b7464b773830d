-- ===== src/Port/Text/Concat.antt =====
-- The buffer of `bctbx_concat` of src/utils/port.c.
use bctoolbox.Common.{
  ℕ, ◌+◌, ◌*◌, ◌%◌, ◌^◌, ◌<◌, ◌≤◌, ◌≡◌, ap, some, List, [], ◌∷◌, ◌++◌, arith, length, leb, ltb,
  length-append, append_assoc, append-nil, true, if◌then◌else◌,
}
use bctoolbox.Port.Hex.{Bytes}
use bctoolbox.Port.Text.{concat_loop, concat}

-- One behind the other.
abbrev pub joined : List Bytes → Bytes
joined [] = []
joined (s ∷ more) = s ++ joined more

concat_loop-joined :
    (allocated : ℕ) (result : Bytes) (strs : List Bytes)
    → length result + 1 ≤ allocated
    → length result + length (joined strs) < 2 ^ 61
    → concat_loop allocated result strs ≡ some (result ++ joined strs)
unfolding concat_loop
concat_loop-joined allocated result [] fits small = rw (append-nil result) (ground arith)
concat_loop-joined allocated result (s ∷ more) fits small =
    let both = length-append s (joined more) in
    let room =
      if ltb allocated (length result + length s + 1)
      then (allocated + length s) * 2 % 2 ^ 64
      else allocated in
    let enough : length result + length s + 1 ≤ room = ground (arith, both) in
    let inside : leb (length result + length s) room ≡ true = ground (arith, enough) in
    rw
      (
        inside,
        concat_loop-joined room (result ++ s) more (omega (arith, enough, length-append result s))
            (omega (arith, both, length-append result s)),
      )
      (ap some (append_assoc result s (joined more)))

-- Of texts that together are shorter than 2^61 bytes, `bctbx_concat` gives the one behind the other, and
-- stays within the memory that it allocates, whose size wraps around at 2^64.
pub concat-joined :
    (strs : List Bytes) → length (joined strs) < 2 ^ 61 → concat strs ≡ some (joined strs)
unfolding concat
concat-joined strs small = concat_loop-joined 100 [] strs (omega arith) (omega arith)
