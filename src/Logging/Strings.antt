-- ===== src/Logging/Strings.antt =====
-- `bctbx_strdup_vprintf` and `bctbx_strcat_vprintf` of src/logging/logging.c. `vsnprintf` is a
-- parameter: of a buffer's size, what it returns. The sizes are of type `int`: one that leaves its range is
-- `none`. Allocation succeeds.
use bctoolbox.Common.{
  ℕ, zero, suc, ◌+◌, ◌*◌, ◌≤◌, ◌<◌, ◌≡◌, refl, ◌⊎◌, inl, inr, Bool, true, false, leb, ◌^◌, Option,
  none, some, ◌++◌, arith, ltb, if◌then◌else◌, Bool-cases,
}
use bctoolbox.Common.Int.{ℤ, pos, negsuc}
use bctoolbox.Logging.{Bytes}

abbrev past_int : ℕ → Bool
past_int size = leb (2 ^ 31) size

-- The size of the buffer in which the text fits.
unfoldable pub strdup_loop : (fuel : ℕ) → (ℕ → ℤ) → (size : ℕ) → Option ℕ
strdup_loop zero vsnprintf size = none
strdup_loop (suc fuel) vsnprintf size = elim (vsnprintf size) [
  | pos n ↦
      if ltb n size
      then some size
      else if past_int (n + 1)
      then none
      else strdup_loop fuel vsnprintf (n + 1)
  | negsuc n ↦ if past_int (size * 2) then none else strdup_loop fuel vsnprintf (size * 2)
]

unfoldable pub strdup_vprintf : (fuel : ℕ) → (ℕ → ℤ) → Option ℕ
strdup_vprintf fuel vsnprintf = strdup_loop fuel vsnprintf 200

-- `dst` may be NULL; then the new text is the result.
unfoldable pub strcat_vprintf : Option Bytes → Bytes → Bytes
strcat_vprintf none text = text
strcat_vprintf (some dst) text = dst ++ text

-- A text of `len` bytes: where it fits its length is returned, and where not either the length, as
-- glibc has it since 2.1, or something negative, as before.
abbrev pub PrintsText : (ℕ → ℤ) → ℕ → Type 0
PrintsText vsnprintf len =
    (size : ℕ)
    → (vsnprintf size ≡ pos len) ⊎ ((size ≤ len) × ((m : ℕ) × (vsnprintf size ≡ negsuc m)))

strdup_loop-fits :
    (fuel : ℕ) (vsnprintf : ℕ → ℤ) (size len : ℕ)
    → PrintsText vsnprintf len
    → len < 2 ^ 30
    → 0 < size
    → len < size + fuel
    → (s : ℕ) × (strdup_loop (suc fuel) vsnprintf size ≡ some s) × (len < s)
unfolding strdup_loop
strdup_loop-fits zero vsnprintf size len prints short some_room enough = elim (prints size) [
  | inl whole ↦
      let fits : ltb len size ≡ true = ground arith in
      rw (whole, strdup_loop, fits) (size, refl, omega arith)
  | inr (over, _) ↦ absurd (omega arith)
]
strdup_loop-fits (suc fuel) vsnprintf size len prints short some_room enough = elim (prints size) [
  | inl whole ↦ elim (Bool-cases (ltb len size)) [
    | inl fits ↦ rw (whole, strdup_loop, fits) (size, refl, ground arith)
    | inr over ↦
        let past : size ≤ len = ground arith in
        let no_overflow : past_int (len + 1) ≡ false = ground arith in
        rw (whole, strdup_loop, over, no_overflow)
          (strdup_loop-fits fuel vsnprintf (len + 1) len prints short (omega arith) (omega arith))
  ]
  | inr (over, (m, small)) ↦
      let no_overflow : past_int (size * 2) ≡ false = ground arith in
      rw (small, strdup_loop, no_overflow)
        (strdup_loop-fits fuel vsnprintf (size * 2) len prints short (omega arith) (omega arith))
]

-- Of a text shorter than 2^30 bytes: `bctbx_strdup_vprintf` ends, in at most as many rounds as the text has bytes and one, whether
-- `vsnprintf` tells the length of a text that does not fit or not; the text fits in its buffer.
pub strdup_vprintf-fits :
    (vsnprintf : ℕ → ℤ) (len : ℕ)
    → PrintsText vsnprintf len
    → len < 2 ^ 30
    → (s : ℕ) × (strdup_vprintf (suc len) vsnprintf ≡ some s) × (len < s)
unfolding strdup_vprintf
strdup_vprintf-fits vsnprintf len prints short =
    strdup_loop-fits len vsnprintf 200 len prints short (omega arith) (omega arith)
