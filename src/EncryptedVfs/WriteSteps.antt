-- ===== src/EncryptedVfs/WriteSteps.antt =====
-- The steps of `write` of src/vfs/vfs_encrypted.cc on a file that holds the chunks of a text.
use native.Mathlib.Nat.{mod-lt, add-mul, mul_comm}
use bctoolbox.Common.{
  ℕ, ◌+◌, ◌-◌, ◌*◌, ◌/◌, ◌%◌, ◌^◌, ◌≤◌, ◌<◌, ◌≡◌, ◌≢◌, refl, sym, ap, ◌∙◌, true, false, inl, inr,
  List, arith, length, take, drop, length-take, length-drop, ltb, ◌==◌, if◌then◌else◌, Bool-cases,
  ==→ne,
}
use bctoolbox.Common.Slices.{take-take, drop-drop, take-drop-take}
use bctoolbox.Vfs.{Bytes, File, Methods}
use bctoolbox.Vfs.Contents.{Stores}
use bctoolbox.Vfs.Unpaged.{after_read, read-unpaged}
use bctoolbox.EncryptedVfs.{
  returns, undefined, Modules, Evfs, throw, get_chunk_offset, raw_chunk_size,
}
use bctoolbox.EncryptedVfs.Blocks.{flat}
use bctoolbox.EncryptedVfs.Contents.{Chunk, raw_of, text_of, raw-AreBlocks, Holds}
use bctoolbox.EncryptedVfs.Loops.{block_size}
use bctoolbox.EncryptedVfs.Places.{chunk_range, first-le-last}
use bctoolbox.EncryptedVfs.ReadText.{part, flat-part, raw-part}
use bctoolbox.EncryptedVfs.Rewritten.{
  first, last, count, front, tail, start-at, last-start, front-part,
}
use bctoolbox.EncryptedVfs.Write.{old_chunks, front_part, back_part, chunk_tail}
use bctoolbox.EncryptedVfs.ChunkAt.{chunk-at, nothing-at}

module _ {E R S : Type 0} (mods : Modules E R) (m : Methods S) (contents : S → Bytes)
    (stores : Stores m contents) (v : Evfs E R S) (e : E) (xs : List Chunk)
    (holds : Holds mods m contents v e xs) (at : ℕ) (new : Bytes)
    (inside : at ≤ length (flat text_of xs)) (some_bytes : 0 < length new) where
  abbrev c : ℕ
  c = v.chunk_size

  abbrev text : Bytes
  text = flat text_of xs

  abbrev pub j : ℕ
  j = first c holds.chunk text at new inside some_bytes

  abbrev pub l : ℕ
  l = last c holds.chunk text at new inside some_bytes

  abbrev pub k : ℕ
  k = count c holds.chunk text at new inside some_bytes

  -- The object with another file below that has the same bytes.
  abbrev pub with_file : File S → Evfs E R S
  with_file f = record v { file_std = f }

  abbrev old : Bytes
  old = flat raw_of (part j k xs)

  pub old_chunks-part :
      (at + length new) / c < 2 ^ 32 - 1
      → at + length new < 2 ^ 63
      → (f : File S) × (old_chunks mods m e j l (j * c) v ≡ (returns old, with_file f))
        × (f.f_size ≡ 0)
        × (contents f.disk ≡ contents v.file_std.disk)
  unfolding old_chunks
  old_chunks-part in_range small = elim (Bool-cases (ltb (j * c) v.file_size)) [
    | inl yes_some ↦
        let (first_eq, last_eq, between) =
          chunk_range c at (length new) holds.chunk some_bytes in_range small in
        let place = get_chunk_offset mods v e j in
        let raw =
          read-unpaged m contents stores v.file_std (k * raw_chunk_size mods v e) place
            holds.unpaged in
        (
          after_read m contents stores v.file_std (k * raw_chunk_size mods v e) place,
          rw (yes_some, between, raw, raw-part mods m contents stores v e xs holds j k) refl,
          holds.unpaged,
          stores.keeps v.file_std.disk (k * raw_chunk_size mods v e) place,
        )
    | inr none_there ↦ (
      v.file_std,
      rw
          (
            none_there,
            nothing-at mods e c xs holds.chunks holds.blocks j k (ground (arith, holds.size)),
          )
          refl,
      holds.unpaged,
      refl,
    )
  ]

  -- The bytes of the old chunks.
  old-raw : old ≡ take (k * block_size mods e c) (drop (j * block_size mods e c) (flat raw_of xs))
  old-raw = sym (
      flat-part raw_of (block_size mods e c) j k xs
        (raw-AreBlocks mods e c 0 xs holds.chunks holds.blocks))

  pub front_part-front :
      (f : File S)
      → front_part mods e j (j * c) at old (with_file f)
        ≡ (returns (take (at - j * c) (drop (j * c) text)), with_file f)
  unfolding front_part raw_chunk_size
  front_part-front f = elim (Bool-cases (ltb (j * c) at)) [
    | inl before ↦
        let size = block_size mods e c in
        let (decrypts, some_raw) =
          chunk-at mods e c xs holds.chunks holds.blocks j (ground arith) in
        let ks : size ≤ k * size = grind arith in
        let raw : take size old ≡ take size (drop (j * size) (flat raw_of xs)) =
          ap (take size) old-raw
          ∙ take-take size (k * size) (drop (j * size) (flat raw_of xs)) ks in
        let long : ltb (length (take c (drop (j * c) text))) (at - j * c) ≡ false = ground (
          arith,
          length-take c (drop (j * c) text),
          length-drop (j * c) text,
          start-at c holds.chunk text at new inside some_bytes,
          mod-lt at holds.chunk,
        ) in
        let head : take (at - j * c) (take c (drop (j * c) text))
            ≡ take (at - j * c) (drop (j * c) text) =
          take-take (at - j * c) c (drop (j * c) text) (
            omega (
              arith,
              start-at c holds.chunk text at new inside some_bytes,
              mod-lt at holds.chunk,
            )) in
        rw (before, raw, decrypts, long, head) refl
    | inr not_before ↦
        let zero_there : at - j * c ≡ 0 = ground arith in rw (not_before, zero_there) refl
  ]

  abbrev the_front : Bytes
  the_front = front c holds.chunk text at new inside some_bytes

  abbrev block : ℕ
  block = block_size mods e c

  skipped-blocks :
      (f : File S)
      → get_chunk_offset mods (with_file f) e l - get_chunk_offset mods (with_file f) e j
        ≡ (l - j) * block
  unfolding get_chunk_offset
  skipped-blocks f =
      let sum : l - j + j ≡ l =
        omega (arith, first-le-last c at (length new) holds.chunk some_bytes) in
      omega (
        arith,
        add-mul (l - j) j block,
        ap (λ (t : ℕ). t * block) sum,
        mul_comm block l,
        mul_comm block j,
      )

  last-raw :
      take block (drop ((l - j) * block) old) ≡ take block (drop (l * block) (flat raw_of xs))
  last-raw =
      let raws = flat raw_of xs in
      let sum : j + (l - j) ≡ l =
        omega (arith, first-le-last c at (length new) holds.chunk some_bytes) in
      let place : j * block + (l - j) * block ≡ l * block =
        sym (add-mul j (l - j) block) ∙ ap (λ (t : ℕ). t * block) sum in
      let fits : (l - j) * block + block ≤ k * block = grind arith in
      ap (λ s. take block (drop ((l - j) * block) s)) old-raw
      ∙ take-drop-take block ((l - j) * block) (k * block) (drop (j * block) raws) fits
      ∙ ap (take block) (drop-drop ((l - j) * block) (j * block) raws ∙ ap (λ n. drop n raws) place)

  -- Where the front ends in the last chunk, and the text goes on.
  last_part :
      (f : File S)
      → length the_front % c ≢ 0
      → length the_front + j * c < length text
      → (if ltb (length old) ((l - j) * block)
            then throw undefined
            else chunk_tail mods e
                (length the_front % c)
                l
                (take block (drop ((l - j) * block) old)))
          (with_file f)
        ≡ (returns (drop (length the_front % c) (take c (drop (l * c) text))), with_file f)
  last_part f cut more =
      let place = last-start c holds.chunk text at new inside some_bytes in
      let ends = front-part c holds.chunk text at new inside some_bytes cut in
      let small = mod-lt (length the_front) holds.chunk in
      let (decrypts, some_raw) = chunk-at mods e c xs holds.chunks holds.blocks l (omega arith) in
      let there : ltb (length old) ((l - j) * block) ≡ false = ground (
        arith,
        ap length last-raw,
        length-take block (drop ((l - j) * block) old),
        length-drop ((l - j) * block) old,
      ) in
      let long : ltb (length (take c (drop (l * c) text))) (length the_front % c) ≡ false =
        ground (arith, length-take c (drop (l * c) text), length-drop (l * c) text) in
      rw (there, last-raw, decrypts, long) refl

  pub back_part-tail :
      (f : File S)
      → back_part mods e j l (j * c) old the_front (with_file f)
        ≡ (returns (tail c holds.chunk text at new inside some_bytes), with_file f)
  unfolding back_part raw_chunk_size
  back_part-tail f = elim (Bool-cases (length the_front % c == 0)) [
    | inl whole ↦ rw whole refl
    | inr cut ↦ elim (Bool-cases (ltb (length the_front + j * c) (length text))) [
      | inl more ↦
          let size_more : ltb (length the_front + j * c) v.file_size ≡ true =
            ap (λ n. ltb (length the_front + j * c) n) holds.size ∙ more in
          rw (cut, size_more, more, skipped-blocks f) (last_part f (==→ne _ _ cut) (ground arith))
      | inr end ↦
          let size_end : ltb (length the_front + j * c) v.file_size ≡ false =
            ap (λ n. ltb (length the_front + j * c) n) holds.size ∙ end in
          rw (cut, size_end, end) refl
    ]
  ]
