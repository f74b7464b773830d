-- ===== src/EncryptedVfs/Places.antt =====
-- The chunks that a read or a write of src/vfs/vfs_encrypted.cc takes.
use native.Mathlib.Nat.{le-div_iff_mul-le, div-mul-le_self, div-add-mod', lt-div-mul-add, add-mul}
use bctoolbox.Common.{ℕ, ◌+◌, ◌-◌, ◌*◌, ◌/◌, ◌%◌, ◌^◌, ◌≤◌, ◌<◌, ◌≡◌, ap, arith}
use bctoolbox.EncryptedVfs.{sub64}
use bctoolbox.EncryptedVfs.Read.{chunks_between}

pub div_mono : (c a b : ℕ) → 0 < c → a ≤ b → a / c ≤ b / c
div_mono c a b h le = (le-div_iff_mul-le h).1 (omega (arith, div-mul-le_self a c))

-- The chunks from `a` to `b` have so many bytes.
pub between_mul : (a b c : ℕ) → a ≤ b → (b - a + 1) * c + a * c ≡ b * c + c
between_mul a b c h =
    let sum : b - a + 1 + a ≡ b + 1 = omega arith in
    omega (arith, add-mul (b - a + 1) a c, add-mul b 1 c, ap (λ (t : ℕ). t * c) sum)

module _ (c o n : ℕ) (chunk : 0 < c) (some_bytes : 0 < n) where
  pub first-le-last : o / c ≤ (o + n - 1) / c
  first-le-last = div_mono c o (o + n - 1) chunk (omega arith)

  -- They have room for the text, at its place in the first one.
  pub range-covers : o % c + n ≤ ((o + n - 1) / c - o / c + 1) * c
  range-covers = omega (
    arith,
    between_mul (o / c) ((o + n - 1) / c) c first-le-last,
    lt-div-mul-add {a = o + n - 1} chunk,
    div-add-mod' o c,
  )

  -- No number wraps around.
  pub chunk_range :
      (o + n) / c < 2 ^ 32 - 1
      → o + n < 2 ^ 63
      → (o / c % 2 ^ 32 ≡ o / c)
        × (sub64 (o + n) 1 / c % 2 ^ 32 ≡ (o + n - 1) / c)
        × (chunks_between (o / c) ((o + n - 1) / c) ≡ (o + n - 1) / c - o / c + 1)
  chunk_range in_range small =
      let last = div_mono c (o + n - 1) (o + n) chunk (omega arith) in
      let sub : sub64 (o + n) 1 ≡ o + n - 1 = omega arith in
      (
        omega (arith, first-le-last),
        rw sub (omega (arith, last)),
        omega (arith, first-le-last, last),
      )
