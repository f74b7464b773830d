-- ===== src/EncryptedVfs/NewChunks.antt =====
-- The chunks of a file of src/vfs/vfs_encrypted.cc behind a write: those in front of it, those that
-- it made, and those behind it.
use native.Mathlib.Decide.{dec_lt}
use native.Mathlib.Nat.{mul-le-mul_right, mul-add}
use bctoolbox.Common.{
  ℕ, ◌+◌, ◌-◌, ◌*◌, ◌^◌, ◌≤◌, ◌<◌, ◌≡◌, sym, ap, ◌∙◌, ◌⊎◌, inl, inr, List, [], ◌++◌, arith, length,
  take, drop, length-append, length-take, length-drop,
}
use bctoolbox.Common.Slices.{drop-drop, drop-all}
use bctoolbox.Vfs.{Bytes}
use bctoolbox.Vfs.Contents.{patch}
use bctoolbox.Vfs.Patch.{patch-inside}
use bctoolbox.EncryptedVfs.{Modules}
use bctoolbox.EncryptedVfs.Blocks.{
  flat, AreBlocks, drop-flat, take-flat, drop-AreBlocks, take-AreBlocks, flat-append,
  length-flat_le, append-AreBlocks,
}
use bctoolbox.EncryptedVfs.Contents.{
  Chunk, raw_of, text_of, AreChunks, raw-AreBlocks, drop-AreChunks, take-AreChunks, length-raw_eq,
  append-AreChunks, some_or_none, number_lt,
}
use bctoolbox.EncryptedVfs.Loops.{Cut, block_size}
use bctoolbox.EncryptedVfs.Rewritten.{
  first, count, rest, whole, front, start-at, front_bounds, length-whole, rewritten,
}

pub at_most : (a b c : ℕ) → a * c < b * c + c → a ≤ b
at_most a b c h = elim (dec_lt b a) [
  | yes more ↦
      let fact = mul-le-mul_right {m = b + 1} {n = a} c (omega arith) in
      let next : (b + 1) * c ≡ b * c + c = grind arith in absurd (omega (arith, fact, next))
  | no few ↦ omega arith
]

module _ {E R : Type 0} (mods : Modules E R) (e : E) (c : ℕ) (chunk : 0 < c) (xs : List Chunk)
    (chunks : AreChunks mods e 0 xs) (blocks : AreBlocks text_of c xs) (at : ℕ) (new : Bytes)
    (inside : at ≤ length (flat text_of xs)) (some_bytes : 0 < length new) where
  abbrev old : Bytes
  old = flat text_of xs

  -- The numbers of the first chunk that changes, and of all that do.
  abbrev pub j : ℕ
  j = first c chunk old at new inside some_bytes

  abbrev pub k : ℕ
  k = count c chunk old at new inside some_bytes

  abbrev pub size : ℕ
  size = block_size mods e c

  abbrev pub before : List Chunk
  before = take j xs

  abbrev pub behind : List Chunk
  behind = drop k (drop j xs)

  abbrev changed : Bytes
  changed = whole c chunk old at new inside some_bytes

  abbrev following : Bytes
  following = rest c chunk old at new inside some_bytes

  raw_blocks : AreBlocks raw_of size xs
  raw_blocks = raw-AreBlocks mods e c 0 xs chunks blocks

  before-number : length before ≡ j
  before-number =
      let start_le : j * c ≤ length xs * c = omega (
        arith,
        start-at c chunk old at new inside some_bytes,
        length-flat_le text_of c xs blocks,
      ) in
      omega (arith, length-take j xs, at_most j (length xs) c (omega (arith, start_le)))

  before-text : flat text_of before ≡ take (j * c) old
  before-text = sym (take-flat text_of c j xs blocks)

  before-full : length (flat text_of before) ≡ length before * c
  before-full = rw before-number (
      omega (
        arith,
        ap length before-text,
        length-take (j * c) old,
        start-at c chunk old at new inside some_bytes,
      ))

  behind-text : flat text_of behind ≡ drop (k * c) following
  behind-text =
      sym (drop-flat text_of c k (drop j xs) (drop-AreBlocks text_of c j xs blocks))
      ∙ ap (drop (k * c)) (sym (drop-flat text_of c j xs blocks))

  behind-chunks : AreChunks mods e (j + k) behind
  behind-chunks =
      let z : 0 + j ≡ j = omega arith in
      drop-AreChunks mods e k j (drop j xs) (rw z at (drop-AreChunks mods e j 0 xs chunks))

  behind-cases : (behind ≡ []) ⊎ (0 < length (flat text_of behind))
  behind-cases = some_or_none mods e (j + k) behind behind-chunks

  module _ (ys : List Chunk) (is_cut : Cut mods e c j changed ys) where
    abbrev pub zs : List Chunk
    zs = before ++ (ys ++ behind)

    abbrev the_length :
        length changed + (length following - k * c)
        ≡ length (front c chunk old at new inside some_bytes)
          + (length following - length (front c chunk old at new inside some_bytes))
    the_length = length-whole c chunk old at new inside some_bytes

    changed_le : length changed ≤ k * c
    changed_le = omega (arith, the_length, front_bounds c chunk old at new inside some_bytes)

    changed-full : 0 < length (flat text_of behind) → length changed ≡ k * c
    changed-full more = omega (
      arith,
      the_length,
      front_bounds c chunk old at new inside some_bytes,
      ap length behind-text,
      length-drop (k * c) following,
    )

    made_le : length ys ≤ k
    made_le = at_most (length ys) k c (
        omega (
          arith,
          number_lt mods e c j ys chunk is_cut.chunks is_cut.blocks,
          ap length is_cut.cut,
          changed_le,
        ))

    made-number : 0 < length (flat text_of behind) → length ys ≡ k
    made-number more =
        let enough = at_most k (length ys) c (
          omega (
            arith,
            changed-full more,
            ap length is_cut.cut,
            length-flat_le text_of c ys is_cut.blocks,
          )) in
        omega (arith, made_le, enough)

    made-full : 0 < length (flat text_of behind) → length (flat text_of ys) ≡ length ys * c
    made-full more = rw (made-number more) (ap length is_cut.cut ∙ changed-full more)

    behind-next : AreChunks mods e (j + length ys) behind
    behind-next = elim behind-cases [
      | inl empty ↦ rw empty tt
      | inr more ↦ rw (made-number more) behind-chunks
    ]

    zs-chunks : AreChunks mods e 0 zs
    zs-chunks =
        let z : 0 + length before ≡ j = omega (arith, before-number) in
        append-AreChunks mods e 0 before (ys ++ behind) (take-AreChunks mods e j 0 xs chunks)
          (rw z (append-AreChunks mods e j ys behind is_cut.chunks behind-next))

    zs-blocks : AreBlocks text_of c zs
    zs-blocks =
        append-AreBlocks text_of c before (ys ++ behind) (take-AreBlocks text_of c j xs blocks)
          (append-AreBlocks text_of c ys behind is_cut.blocks
            (drop-AreBlocks text_of c k (drop j xs) (drop-AreBlocks text_of c j xs blocks))
            (made_or_none behind-cases))
          (inr before-full)
      where
        made_or_none :
            (behind ≡ []) ⊎ (0 < length (flat text_of behind))
            → (behind ≡ []) ⊎ (length (flat text_of ys) ≡ length ys * c)
        made_or_none (inl empty) = inl empty
        made_or_none (inr more) = inr (made-full more)

    -- The text has the new bytes at their offset.
    pub zs-Cut : Cut mods e c 0 (patch at new old) zs
    zs-Cut = record {
      chunks = zs-chunks;
      blocks = zs-blocks;
      cut =
          flat-append text_of before (ys ++ behind)
          ∙ ap (λ s. flat text_of before ++ s) (flat-append text_of ys behind)
          ∙ rw (before-text, is_cut.cut, behind-text)
              (rewritten c chunk old at new inside some_bytes);
    }

    pub zs-number : length xs < 2 ^ 32 → j + k < 2 ^ 32 → length zs < 2 ^ 32
    zs-number small in_range = elim behind-cases [
      | inl empty ↦ omega (
        arith,
        length-append before (ys ++ behind),
        length-append ys behind,
        before-number,
        made_le,
        ap length empty,
      )
      | inr more ↦ omega (
        arith,
        length-append before (ys ++ behind),
        length-append ys behind,
        before-number,
        made-number more,
        length-drop k (drop j xs),
        length-drop j xs,
      )
    ]

    following_le : behind ≡ [] → length following ≤ length changed
    following_le empty =
        let nothing : length (flat text_of behind) ≡ 0 = ap (λ s. length (flat text_of s)) empty in
        omega (
          arith,
          the_length,
          front_bounds c chunk old at new inside some_bytes,
          nothing,
          ap length behind-text,
          length-drop (k * c) following,
        )

    abbrev raws : Bytes
    raws = flat raw_of xs

    before-raw : flat raw_of before ≡ take (j * size) raws
    before-raw = sym (take-flat raw_of size j xs raw_blocks)

    before_raw-size : j * size ≤ length raws
    before_raw-size =
        let h = mods.get_chunk_header_size e in
        omega (
          arith,
          ap length before-raw,
          length-take (j * size) raws,
          length-raw_eq mods e 0 before (take-AreChunks mods e j 0 xs chunks),
          mul-add j c h,
          before-full,
          ap (λ (t : ℕ). t * c) before-number,
          ap (λ (t : ℕ). t * h) before-number,
        )

    behind-raw : flat raw_of behind ≡ drop (k * size) (drop (j * size) raws)
    behind-raw =
        sym (drop-flat raw_of size k (drop j xs) (drop-AreBlocks raw_of size j xs raw_blocks))
        ∙ ap (drop (k * size)) (sym (drop-flat raw_of size j xs raw_blocks))

    made_raw-size : 0 < length (flat text_of behind) → length (flat raw_of ys) ≡ k * size
    made_raw-size more =
        let h = mods.get_chunk_header_size e in
        omega (
          arith,
          length-raw_eq mods e j ys is_cut.chunks,
          made-full more,
          mul-add k c h,
          ap (λ (t : ℕ). t * c) (made-number more),
          ap (λ (t : ℕ). t * h) (made-number more),
        )

    from_j : AreChunks mods e j (drop j xs)
    from_j = let z : 0 + j ≡ j = omega arith in rw z at (drop-AreChunks mods e j 0 xs chunks)

    -- Where nothing is behind, the new chunks are no fewer than the old ones.
    old_le : behind ≡ [] → length (drop j xs) ≤ length ys
    old_le empty = at_most (length (drop j xs)) (length ys) c (
        omega (
          arith,
          number_lt mods e c j (drop j xs) chunk from_j (drop-AreBlocks text_of c j xs blocks),
          ap length (drop-flat text_of c j xs blocks),
          following_le empty,
          ap length is_cut.cut,
          length-flat_le text_of c ys is_cut.blocks,
        ))

    raws_le : behind ≡ [] → length raws ≤ j * size + length (flat raw_of ys)
    raws_le empty =
        let h = mods.get_chunk_header_size e in
        omega (
          arith,
          ap length (drop-flat raw_of size j xs raw_blocks),
          length-drop (j * size) raws,
          length-raw_eq mods e j (drop j xs) from_j,
          length-raw_eq mods e j ys is_cut.chunks,
          ap length (drop-flat text_of c j xs blocks),
          following_le empty,
          ap length is_cut.cut,
          mul-le-mul_right h (old_le empty),
        )

    -- What is behind the new chunks in the file are those behind.
    made-behind : drop (j * size + length (flat raw_of ys)) raws ≡ flat raw_of behind
    made-behind = elim behind-cases [
      | inl empty ↦
          drop-all (j * size + length (flat raw_of ys)) raws (raws_le empty)
          ∙ ap (flat raw_of) (sym empty)
      | inr more ↦
          ap (λ n. drop (j * size + n) raws) (made_raw-size more)
          ∙ sym (drop-drop (k * size) (j * size) raws)
          ∙ sym behind-raw
    ]

    -- So does the file, in its chunks.
    pub zs-raw : flat raw_of zs ≡ patch (j * size) (flat raw_of ys) raws
    zs-raw =
        flat-append raw_of before (ys ++ behind)
        ∙ ap (λ s. flat raw_of before ++ s) (flat-append raw_of ys behind)
        ∙ ap (λ s. s ++ (flat raw_of ys ++ flat raw_of behind)) before-raw
        ∙ ap (λ s. take (j * size) raws ++ (flat raw_of ys ++ s)) (sym made-behind)
        ∙ sym (patch-inside (j * size) (flat raw_of ys) raws before_raw-size)
