-- ===== src/Vfs/Lines.antt =====
-- src/vfs/vfs.c, continued: reading lines. A buffer is the list of its bytes; a copy past its end
-- makes it longer. The lengths stay below 2^31.
use bctoolbox.Common.{
  ℕ, zero, suc, ◌+◌, ◌-◌, Bool, true, false, ◌&&◌, Option, none, some, [], ◌∷◌, ◌++◌, ltb, ◌==◌,
  if◌then◌else◌, take, drop, min,
}
use bctoolbox.Common.Int.{ℤ, pos, ◌+ℤ◌, is_neg, ltb_ℤ, pos_part, neg_part}
use bctoolbox.Vfs.{
  Bytes, File, Op, Methods, error, getline_page_size, pure, ◌>>=◌, ◌>>◌, get, advance, overwrite,
  flush, read,
}

-- `strchr` on a buffer, up to its first zero.
abbrev pub strchr : Bytes → ℕ → Option ℕ
strchr [] c = none
strchr (b ∷ s) c =
    if b == c
    then some 0
    else if b == 0
    then none
    else elim (strchr s c) [ none ↦ none | some j ↦ some (suc j) ]

-- The first end of a line.
unfoldable pub find_next_line : Bytes → Option ℕ
find_next_line buf = elim (strchr buf 13) [
  | some r ↦ elim (strchr buf 10) [ some n ↦ some (min r n) | none ↦ some r ]
  | none ↦ strchr buf 10
]

abbrev pub nth_byte : ℕ → Bytes → ℕ
nth_byte i [] = 0
nth_byte zero (b ∷ s) = b
nth_byte (suc i) (b ∷ s) = nth_byte i s

-- How far the offset moves for a line that ends at `n`: over its end, and over the second of two.
abbrev pub step_over : Bytes → ℕ → ℕ
step_over s n = if nth_byte n s == 13 && nth_byte (suc n) s == 10 then n + 2 else n + 1

-- `a - b` where it is not negative.
abbrev pub distance : ℤ → ℤ → ℕ
distance a b = pos_part a + neg_part b - (pos_part b + neg_part a)

module _ {S : Type 0} where
  -- Whether the offset is in the page that is held.
  unfoldable pub in_page : File S → Bool
  in_page f =
      ltb 0 f.g_size
      && (not_after f.g_page_offset f.offset && ltb_ℤ f.offset (f.g_page_offset +ℤ pos f.g_size))
    where
      not_after : ℤ → ℤ → Bool
      not_after a b = if ltb_ℤ b a then false else true

  -- The answer from the page, or `none` where it has no end of line and not the end of the file.
  unfoldable pub cached_line : File S → Bytes → Option ((ℤ × Bytes) × File S)
  cached_line f s =
      let at = distance f.offset f.g_page_offset in
      let c = drop at f.g_page in
      elim (find_next_line c) [
        | some n ↦ some (
          (pos (n + 1), overwrite 0 (take n c ++ 0 ∷ []) s),
          record f { offset = f.offset +ℤ pos (step_over c n) },
        )
        | none ↦
            if nth_byte (f.g_size - 1) f.g_page == 4
            then some (
              (pos (f.g_size - at - 1), overwrite 0 (take (f.g_size - at - 1) c ++ 0 ∷ []) s),
              record f { offset = f.offset +ℤ pos (f.g_size - at - 1) },
            )
            else none
      ]

  -- What was read is kept, with 4 behind it where the file has ended, where it fits.
  unfoldable pub keep_page : (max_len read_size : ℕ) → Bytes → Op S (Unit {0})
  keep_page max_len read_size s f = (
    tt,
    if ltb (max_len - 1) getline_page_size
        then record f {
          g_page =
              overwrite read_size (if ltb read_size (max_len - 1) then 4 ∷ 0 ∷ [] else 0 ∷ [])
                (overwrite 0 (take read_size s) f.g_page);
          g_page_offset = f.offset;
          g_size = if ltb read_size (max_len - 1) then read_size + 1 else read_size;
        }
        else f,
  )

  -- The line of a buffer with `read_size` bytes read into it.
  unfoldable pub take_line : (read_size : ℕ) → Bytes → Op S (ℤ × Bytes)
  take_line read_size s = elim (find_next_line s) [
    | some n ↦ (do advance (pos (step_over s n)); pure (pos (n + 1), overwrite n (0 ∷ []) s))
    | none ↦ (do advance (pos read_size); pure (pos read_size, overwrite read_size (0 ∷ []) s))
  ]

module _ {S : Type 0} (m : Methods S) where
  -- The buffer `s` may hold anything before the read, and does so behind what is read.
  unfoldable pub read_line : (max_len : ℕ) → Bytes → Op S (ℤ × Bytes)
  read_line max_len s = do
    f ← get
    (ret, bytes) ← read m (max_len - 1) f.offset
    let buf = overwrite 0 bytes (overwrite (max_len - 1) (0 ∷ []) s)
    if ltb_ℤ (pos 0) ret
        then (do keep_page max_len (pos_part ret) buf; take_line (pos_part ret) buf)
        else pure (pos 0, buf)

  unfoldable pub generic_get_nxtline : Bytes → (max_len : ℤ) → Op S (ℤ × Bytes)
  generic_get_nxtline s max_len = if ltb_ℤ max_len (pos 1) then pure (error, s) else do
    r ← flush m
    if is_neg r then pure (error, s) else do
      f ← get
      elim (if in_page f then cached_line f s else none) [
        | some answer ↦ λ _. answer
        | none ↦ read_line (pos_part max_len) s
      ]

  unfoldable pub get_nxtline : Bytes → (max_len : ℤ) → Op S (ℤ × Bytes)
  get_nxtline s max_len = do
    r ← flush m
    if is_neg r
        then pure (error, s)
        else elim m.get_line [ none ↦ generic_get_nxtline s max_len | some line ↦ line s max_len ]
