-- ===== src/EncryptedVfs/WriteAt.antt =====
-- A write of src/vfs/vfs_encrypted.cc within the text of a file or at its end, whatever chunks it
-- goes to.
use native.Mathlib.Nat.{mul-le-mul_right, mul_comm}
use bctoolbox.Common.{
  ℕ, ◌+◌, ◌-◌, ◌*◌, ◌/◌, ◌%◌, ◌^◌, ◌≤◌, ◌<◌, ◌≡◌, ◌++◌, refl, sym, ap, ◌∙◌, some, List, arith,
  length, drop, length-append, length-take, eq→==,
}
use bctoolbox.Vfs.{Bytes, File, Methods}
use bctoolbox.Vfs.Contents.{patch, Stores}
use bctoolbox.Vfs.Patch.{drop-patch, stored-patch}
use bctoolbox.Vfs.Unpaged.{after_write, write-unpaged}
use bctoolbox.EncryptedVfs.{
  returns, Modules, Evfs, get_chunk_offset, get_chunk_index, raw_chunk_size,
}
use bctoolbox.EncryptedVfs.Blocks.{flat, AreBlocks, drop-AreBlocks, take-AreBlocks}
use bctoolbox.EncryptedVfs.Contents.{
  Chunk, raw_of, text_of, IsCipher, AreChunks, drop-AreChunks, take-AreChunks, length-raw,
  length-raw_eq, Holds,
}
use bctoolbox.EncryptedVfs.Loops.{Cut, block_size, drawn, Rewrites, loops-Rewrites}
use bctoolbox.EncryptedVfs.Places.{chunk_range, first-le-last, div_mono}
use bctoolbox.EncryptedVfs.ReadText.{part}
use bctoolbox.EncryptedVfs.Rewritten.{
  whole, front, tail, start-at, length-front, front_bounds, count-chunks, length-whole,
}
use bctoolbox.EncryptedVfs.NewChunks.{zs, zs-Cut, zs-number, zs-raw}
use bctoolbox.EncryptedVfs.WriteSteps.{
  j, l, k, with_file, old_chunks-part, front_part-front, back_part-tail,
}
use bctoolbox.EncryptedVfs.WriteHeader.{
  with_header, write_header-with_header, body-with_header, header_of, header_of-with_header,
  contents-with_header,
}
use bctoolbox.EncryptedVfs.Write.{write_at, put_chunks}

module _ {E R S : Type 0} (mods : Modules E R) (m : Methods S) (contents : S → Bytes)
    (stores : Stores m contents) (e : E) (cipher : IsCipher mods e) where
  abbrev with_chunks : Evfs E R S → (first size : ℕ) → Bytes → Evfs E R S
  with_chunks w first size raw = record w {
    file_size = size;
    file_std = after_write m contents stores w.file_std raw (get_chunk_offset mods w e first);
  }

  put_chunks-with_header :
      (w : Evfs E R S) (first size : ℕ) (raw : Bytes)
      → w.encryption ≡ some e
      → w.file_std.f_size ≡ 0
      → put_chunks mods m e first size raw w
        ≡ (returns tt, with_header mods m contents stores e cipher (with_chunks w first size raw))
  unfolding put_chunks
  put_chunks-with_header w first size raw known unpaged =
      rw
        (
          write-unpaged m contents stores w.file_std raw (get_chunk_offset mods w e first) unpaged,
          eq→== (length raw) (length raw) refl,
        )
        (write_header-with_header mods m contents stores e cipher (with_chunks w first size raw)
          known unpaged)

  module _ (v : Evfs E R S) (xs : List Chunk) (holds : Holds mods m contents v e xs)
      (no_extension : v.header_extension_size ≡ 0) (at : ℕ) (new : Bytes)
      (inside : at ≤ length (flat text_of xs)) (some_bytes : 0 < length new)
      (in_range : (at + length new) / v.chunk_size < 2 ^ 32 - 1)
      (small : at + length new < 2 ^ 63) where
    abbrev c : ℕ
    c = v.chunk_size

    abbrev text : Bytes
    text = flat text_of xs

    abbrev first : ℕ
    first = j mods m contents stores v e xs holds at new inside some_bytes

    abbrev final : ℕ
    final = l mods m contents stores v e xs holds at new inside some_bytes

    abbrev number : ℕ
    number = k mods m contents stores v e xs holds at new inside some_bytes

    abbrev old : List Chunk
    old = part first number xs

    abbrev changed : Bytes
    changed = whole c holds.chunk text at new inside some_bytes

    old-chunks : AreChunks mods e first old
    old-chunks =
        let z : 0 + first ≡ first = omega arith in
        take-AreChunks mods e number first (drop first xs)
          (rw z at (drop-AreChunks mods e first 0 xs holds.chunks))

    old-blocks : AreBlocks text_of c old
    old-blocks =
        take-AreBlocks text_of c number (drop first xs)
          (drop-AreBlocks text_of c first xs holds.blocks)

    abbrev bounds :
        (length (front c holds.chunk text at new inside some_bytes) ≤ number * c)
        × ((final - first) * c < length (front c holds.chunk text at new inside some_bytes))
    bounds = front_bounds c holds.chunk text at new inside some_bytes

    in_numbers : first + number < 2 ^ 32
    in_numbers = omega (
      arith,
      first-le-last c at (length new) holds.chunk some_bytes,
      div_mono c (at + length new - 1) (at + length new) holds.chunk (omega arith),
    )

    loops :
        (f : File S)
        → Rewrites mods e cipher c holds.chunk
            (block_size mods e c)
            (length (flat raw_of old))
            first
            (flat raw_of old)
            changed
            (with_file mods m contents stores v e xs holds at new inside some_bytes f)
    loops f =
        let few : length old ≤ number = omega (arith, length-take number (drop first xs)) in
        loops-Rewrites mods e cipher c holds.chunk number (length (flat raw_of old)) first old
          changed (with_file mods m contents stores v e xs holds at new inside some_bytes f)
          old-chunks old-blocks (length-raw mods e first old old-chunks)
          (omega (
            arith,
            mul-le-mul_right c few,
            count-chunks c holds.chunk text at new inside some_bytes,
            bounds,
            length-append (front c holds.chunk text at new inside some_bytes)
                (tail c holds.chunk text at new inside some_bytes),
          ))
          (omega (arith, bounds, length-whole c holds.chunk text at new inside some_bytes))
          in_numbers

    abbrev below : File S
    below =
        (old_chunks-part mods m contents stores v e xs holds at new inside some_bytes in_range
          small).0

    abbrev made : List Chunk
    made = (loops below).ys

    abbrev new_chunks : List Chunk
    new_chunks =
        zs mods e c holds.chunk xs holds.chunks holds.blocks at new inside some_bytes made
          (loops below).is_cut

    -- The object once the new chunks are made, and behind the call.
    abbrev cut_up : Evfs E R S
    cut_up =
        drawn (with_file mods m contents stores v e xs holds at new inside some_bytes below)
          (loops below).g2

    abbrev written : ℕ → Evfs E R S
    written size =
        with_header mods m contents stores e cipher
          (with_chunks cut_up first size (flat raw_of made))

    write_at-written : (size : ℕ) → write_at mods m e size new at v ≡ (returns tt, written size)
    unfolding write_at get_chunk_index raw_chunk_size
    write_at-written size =
        let (first_eq, last_eq, between) =
          chunk_range c at (length new) holds.chunk some_bytes in_range small in
        let (f, old_run, unpaged, same) =
          old_chunks-part mods m contents stores v e xs holds at new inside some_bytes in_range
            small in
        let r = loops f in
        let begins : at - at % c ≡ first * c =
          omega (arith, start-at c holds.chunk text at new inside some_bytes) in
        rw
          (
            first_eq,
            last_eq,
            begins,
            old_run,
            front_part-front mods m contents stores v e xs holds at new inside some_bytes f,
            back_part-tail mods m contents stores v e xs holds at new inside some_bytes f,
            r.overwrites,
            r.appends,
            r.bytes,
          )
          (put_chunks-with_header cut_up first size (flat raw_of r.ys) holds.encrypted unpaged)

    made-some : 0 < length (flat raw_of made)
    made-some = omega (
      arith,
      length-raw_eq mods e first made (loops below).is_cut.chunks,
      ap length (loops below).is_cut.cut,
      length-append (front c holds.chunk text at new inside some_bytes)
          (tail c holds.chunk text at new inside some_bytes),
      length-front c holds.chunk text at new inside some_bytes,
    )

    written-body :
        (size : ℕ)
        → drop (get_chunk_offset mods v e 0) (contents (written size).file_std.disk)
          ≡ flat raw_of new_chunks
    unfolding get_chunk_offset
    written-body size =
        let raw = flat raw_of made in
        let d = contents below.disk in
        let block = block_size mods e c in
        let place : get_chunk_offset mods v e first ≡ get_chunk_offset mods v e 0 + first * block =
          omega (arith, mul_comm block first, mul_comm block 0) in
        let same =
          (old_chunks-part mods m contents stores v e xs holds at new inside some_bytes in_range
            small).3 in
        body-with_header mods m contents stores e cipher (with_chunks cut_up first size raw)
          no_extension
        ∙ ap (drop (get_chunk_offset mods v e 0)) (
            stores.holds below.disk raw (get_chunk_offset mods v e first)
            ∙ stored-patch (get_chunk_offset mods v e first) raw d made-some
            ∙ ap (λ n. patch n raw d) place)
        ∙ drop-patch (get_chunk_offset mods v e 0) (first * block) raw d
        ∙ ap (λ s. patch (first * block) raw (drop (get_chunk_offset mods v e 0) s)) same
        ∙ ap (patch (first * block) raw) holds.body
        ∙ sym (
            zs-raw mods e c holds.chunk xs holds.chunks holds.blocks at new inside some_bytes made
              (loops below).is_cut)

    abbrev result_cut : Cut mods e c 0 (patch at new text) new_chunks
    result_cut =
        zs-Cut mods e c holds.chunk xs holds.chunks holds.blocks at new inside some_bytes made
          (loops below).is_cut

    written-Holds :
        (size : ℕ)
        → size ≡ length (patch at new text)
        → Holds mods m contents (written size) e new_chunks
    unfolding get_chunk_offset
    written-Holds size size_eq = record {
      encrypted = holds.encrypted;
      chunk = holds.chunk;
      size = size_eq ∙ ap length (sym result_cut.cut);
      number =
          zs-number mods e c holds.chunk xs holds.chunks holds.blocks at new inside some_bytes made
            (loops below).is_cut holds.number in_numbers;
      chunks = result_cut.chunks;
      blocks = result_cut.blocks;
      unpaged =
          (old_chunks-part mods m contents stores v e xs holds at new inside some_bytes in_range
            small).2;
      body = written-body size;
    }

    written-header :
        (size : ℕ)
        → contents (written size).file_std.disk
          ≡ header_of mods m contents stores e cipher (written size) ++ flat raw_of new_chunks
    unfolding get_chunk_offset
    written-header size =
        let u = with_chunks cut_up first size (flat raw_of made) in
        contents-with_header mods m contents stores e cipher u no_extension
        ∙ ap (λ s. header_of mods m contents stores e cipher u ++ s)
            (sym (body-with_header mods m contents stores e cipher u no_extension)
              ∙ written-body size)
        ∙ ap (λ s. s ++ flat raw_of new_chunks)
            (sym (header_of-with_header mods m contents stores e cipher u))

    -- `write_at` of some bytes within the text or at its end.
    pub write_at-text :
        (size : ℕ)
        → size ≡ length (patch at new text)
        → (v' : Evfs E R S) × (ys : List Chunk) × (write_at mods m e size new at v
            ≡ (returns tt, v'))
          × Holds mods m contents v' e ys
          × (flat text_of ys ≡ patch at new text)
          × (v'.header_extension_size ≡ 0)
          × (v'.chunk_size ≡ v.chunk_size)
          × (v'.version_number ≡ v.version_number)
          × (contents v'.file_std.disk
              ≡ header_of mods m contents stores e cipher v' ++ flat raw_of ys)
    write_at-text size size_eq = (
      written size,
      new_chunks,
      write_at-written size,
      written-Holds size size_eq,
      result_cut.cut,
      no_extension,
      refl,
      refl,
      written-header size,
    )
