-- ===== src/EncryptedVfs/Truncate.antt =====
-- `truncate` of src/vfs/vfs_encrypted.cc cuts the text of a file, or puts zeros behind it.
use bctoolbox.Common.{
  ℕ, ◌+◌, ◌-◌, ◌*◌, ◌/◌, ◌%◌, ◌^◌, ◌<◌, ◌≤◌, ◌≡◌, refl, sym, ap, ◌∙◌, List, [], ◌∷◌, ◌++◌, arith,
  length, take, drop, length-append, length-take, length-drop, inl, inr, append-nil, ltb, ◌==◌,
  if◌then◌else◌, true, max, Bool-cases, ==→eq, ==→ne, eq→==, ne→==,
}
use bctoolbox.Common.Slices.{take-length-take, take-all, drop-all}
use bctoolbox.Vfs.{Bytes, Methods}
use bctoolbox.Vfs.Contents.{patch, Stores, Shortens}
use bctoolbox.Vfs.Open.{zeros}
use bctoolbox.Vfs.Patch.{patch-inside, length-patch, length-zeros}
use bctoolbox.EncryptedVfs.{Result, returns, pure, ◌>>◌, Modules, Evfs, get_chunk_offset}
use bctoolbox.EncryptedVfs.Blocks.{flat}
use bctoolbox.EncryptedVfs.Write.{write, write_chunks, shrink, truncate, resize}
use bctoolbox.EncryptedVfs.Contents.{
  Chunk, raw_of, text_of, IsChunk, length-raw_eq, IsCipher, Holds,
}
use bctoolbox.EncryptedVfs.Loops.{block_size}
use bctoolbox.EncryptedVfs.Cut.{in_front-number, in_front-AreLeft, cut-AreLeft}
use bctoolbox.EncryptedVfs.CutChunk.{
  resize-take, left_chunk, with_cut, cut_chunk-with_cut, left_chunk-IsChunk, before-inside, fewer,
  body-with_cut, room-with_cut,
}
use bctoolbox.EncryptedVfs.WriteAt.{write_at-text}
use bctoolbox.EncryptedVfs.WriteText.{write-encrypted}
use bctoolbox.EncryptedVfs.CutDown.{ends-cut_down}

module _ {E R S : Type 0} (mods : Modules E R) (m : Methods S) (contents : S → Bytes)
    (stores : Stores m contents) (shortens : Shortens m contents) (e : E) (cipher : IsCipher mods e)
    (v : Evfs E R S) (xs : List Chunk) (holds : Holds mods m contents v e xs)
    (no_extension : v.header_extension_size ≡ 0)
    (fits : get_chunk_offset mods v e 0 + length (flat raw_of xs) < 2 ^ 64) (n : ℕ)
    (in_range : n / v.chunk_size < 2 ^ 32 - 1) where
  abbrev text : Bytes
  text = flat text_of xs

  abbrev raw : Bytes
  raw = flat raw_of xs

  -- A call that leaves the chunks of a text.
  abbrev Gives : Result (Unit {0}) × Evfs E R S → Bytes → Type 0
  Gives run s =
      (run.0 ≡ returns tt)
      × ((ys : List Chunk) × Holds mods m contents run.1 e ys × (flat text_of ys ≡ s))

  module _ (inside : n < length text) where
    abbrev c : ℕ
    c = v.chunk_size

    abbrev i : ℕ
    i = n / c

    abbrev size : ℕ
    size = block_size mods e c

    abbrev front : Bytes
    front = take (i * size) raw

    length-front : length front ≤ length raw
    length-front = omega (arith, length-take (i * size) raw)

    text_size : n ≡ length (take n text)
    text_size = omega (arith, length-take n text)

    -- The file is the header and the chunks.
    whole_file : length (contents v.file_std.disk) ≡ get_chunk_offset mods v e 0 + length raw
    whole_file = omega (
      arith,
      ap length holds.body,
      length-drop (get_chunk_offset mods v e 0) (contents v.file_std.disk),
      length-raw_eq mods e 0 xs holds.chunks,
    )

    shrink-even : n % c ≡ 0 → Gives (shrink mods m e n v) (take n text)
    unfolding shrink
    shrink-even even =
        ends-cut_down mods m contents stores shortens e cipher v n (take n text) front (take i xs)
          holds.encrypted no_extension holds.unpaged holds.chunk
          (in_front-AreLeft mods e c holds.chunk xs holds.chunks holds.blocks n inside even)
          text_size (omega (arith, length-take i xs)) (omega (arith, whole_file, length-front))
          (omega (arith, fits, length-front))
          (ap (take (length front)) holds.body ∙ take-length-take (i * size) raw)
          (shrink mods m e n v) (rw (eq→== (n % c) 0 even) refl)

    module _ (odd : 0 < n % c) where
      abbrev small : i < 2 ^ 32
      small = omega arith

      abbrev x : Chunk
      x = left_chunk mods m contents stores e cipher v xs holds n inside small odd

      abbrev u : Evfs E R S
      u = with_cut mods m contents stores e cipher v xs holds n inside small odd

      abbrev x-IsChunk : IsChunk mods e i x
      x-IsChunk = left_chunk-IsChunk mods m contents stores e cipher v xs holds n inside small odd

      size_left : length (front ++ x.raw) ≡ i * size + length x.raw
      size_left = omega (
        arith,
        length-append front x.raw,
        length-take (i * size) raw,
        before-inside mods m contents stores e cipher v xs holds n inside small odd,
      )

      number_left : length (take i xs ++ x ∷ []) < 2 ^ 32
      number_left = omega (
        arith,
        length-append (take i xs) (x ∷ []),
        in_front-number mods e c holds.chunk xs holds.chunks holds.blocks n inside,
      )

      shrink-odd : Gives (shrink mods m e n v) (take n text)
      unfolding shrink get_chunk_offset
      shrink-odd =
          ends-cut_down mods m contents stores shortens e cipher u n (take n text) (front ++ x.raw)
            (take i xs ++ x ∷ []) holds.encrypted no_extension holds.unpaged holds.chunk
            (cut-AreLeft mods e c holds.chunk xs holds.chunks holds.blocks n inside x x-IsChunk
              refl)
            text_size number_left
            (omega (
              arith,
              size_left,
              room-with_cut mods m contents stores e cipher v xs holds n inside small odd,
            ))
            (omega (
              arith,
              size_left,
              fewer mods m contents stores e cipher v xs holds n inside small odd,
            ))
            (ap (λ k. take k (drop (get_chunk_offset mods v e 0) (contents u.file_std.disk)))
                size_left
              ∙ body-with_cut mods m contents stores e cipher v xs holds n inside small odd)
            (shrink mods m e n v)
            (rw
              (
                ne→== (n % c) 0 (λ z. omega arith),
                cut_chunk-with_cut mods m contents stores e cipher v xs holds n inside small odd,
              )
              refl)

    shrink-text : Gives (shrink mods m e n v) (resize n text)
    shrink-text = rw (resize-take n text (omega arith)) (elim (Bool-cases (n % c == 0)) [
      | inl even ↦ shrink-even (==→eq (n % c) 0 even)
      | inr odd ↦ shrink-odd (omega (arith, ==→ne (n % c) 0 odd))
    ])

  module _ (longer : length text < n) (small : n < 2 ^ 63) where
    abbrev more : Bytes
    more = zeros (n - v.file_size) ++ []

    length-more : length more ≡ n - v.file_size
    length-more = ap length (append-nil (zeros (n - v.file_size))) ∙ length-zeros (n - v.file_size)

    patch-more : patch v.file_size more text ≡ resize n text
    patch-more =
        let whole : length text ≤ v.file_size = omega (arith, holds.size) in
        patch-inside v.file_size more text (omega (arith, holds.size))
        ∙ rw
            (
              take-all v.file_size text whole,
              drop-all (v.file_size + length more) text (omega arith),
              append-nil more,
              append-nil (zeros (n - v.file_size)),
              take-all n text (omega arith),
              holds.size,
            )
            refl

    -- Zeros are written behind the end.
    write-zeros : Gives ((write mods m [] n >> pure tt) v) (resize n text)
    unfolding write_chunks
    write-zeros =
        let behind : ltb v.file_size n ≡ true = ground (arith, holds.size) in
        let place : v.file_size + length more ≡ n = omega (arith, length-more, holds.size) in
        let (v', ys, run, holds', cut, extension, chunk, version, whole) =
          write_at-text mods m contents stores e cipher v xs holds no_extension v.file_size more
            (omega (arith, holds.size)) (omega (arith, length-more, holds.size)) (rw place in_range)
            (omega (arith, place)) (max v.file_size (0 + n))
            (omega (arith, length-patch v.file_size more text, place, holds.size)) in
        rw (write-encrypted mods m contents stores e cipher v xs holds [] n, behind, run)
          (refl, (ys, holds', cut ∙ patch-more))

  truncate-encrypted :
      truncate mods m n v
      ≡ (if ltb v.file_size n
            then (write mods m [] n >> pure tt)
            else if ltb n v.file_size
            then shrink mods m e n
            else pure tt)
          v
  unfolding truncate
  truncate-encrypted = simp holds.encrypted

  -- Over a VFS that stores and shortens, with a module that is a cipher, on a file without header
  -- extension that holds the chunks of a text and whose size fits 64 bits, `truncate` to a size
  -- below 2^63 in the range of the chunk numbers returns, and the file holds the chunks of the text
  -- with exactly that size: its first bytes, with zeros behind it where it was shorter.
  pub truncate-text : n < 2 ^ 63 → Gives (truncate mods m n v) (resize n text)
  truncate-text small = elim (Bool-cases (ltb v.file_size n)) [
    | inl longer ↦ rw (truncate-encrypted, longer) (write-zeros (ground (arith, holds.size)) small)
    | inr up_to ↦ elim (Bool-cases (ltb n v.file_size)) [
      | inl shorter ↦
          rw (truncate-encrypted, up_to, shorter) (shrink-text (ground (arith, holds.size)))
      | inr from_it ↦
          let same : n ≡ length text = ground (arith, holds.size) in
          rw (truncate-encrypted, up_to, from_it)
            (
              refl,
              (xs, holds, sym (resize-take n text (omega arith) ∙ take-all n text (omega arith))),
            )
    ]
  ]
