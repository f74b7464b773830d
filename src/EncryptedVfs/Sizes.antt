-- ===== src/EncryptedVfs/Sizes.antt =====
-- The size that `rawFileSizeGet` of src/vfs/vfs_encrypted.cc gives is that of a file that holds chunks.
use native.Mathlib.Nat.{div-add-mod', lt_of_mul-lt-mul_right, mod-lt, add-mul}
use bctoolbox.Common.{
  ℕ, ◌+◌, ◌-◌, ◌*◌, ◌/◌, ◌%◌, ◌^◌, ◌<◌, ◌≤◌, ◌≡◌, List, arith, length, inl, inr, ◌==◌, ==→eq, ==→ne,
  Bool-cases,
}
use bctoolbox.EncryptedVfs.{
  Modules, Evfs, chunk_number, raw_file_size, raw_chunk_size, get_chunk_offset,
}
use bctoolbox.EncryptedVfs.Header.{recovered_size}
use bctoolbox.EncryptedVfs.Blocks.{flat, AreBlocks, length-flat_le}
use bctoolbox.EncryptedVfs.Contents.{
  Chunk, raw_of, text_of, number_lt, raw-AreBlocks, length-raw_eq, AreChunks,
}

chunk_number_unique :
    (c size n : ℕ) → 0 < c → size ≤ n * c → n * c < size + c → chunk_number size c ≡ n
chunk_number_unique c size n chunk low high =
    let q = size / c in
    let above : q < n + 1 =
      lt_of_mul-lt-mul_right c (omega (arith, div-add-mod' size c, add-mul n 1 c)) in
    let below : n < q + 2 =
      lt_of_mul-lt-mul_right c
        (omega (arith, div-add-mod' size c, mod-lt size chunk, add-mul q 2 c)) in
    elim (Bool-cases (size % c == 0)) [
      | inl even ↦
          let sharp : n < q + 1 =
            lt_of_mul-lt-mul_right c
              (omega (arith, div-add-mod' size c, ==→eq (size % c) 0 even, add-mul q 1 c)) in
          rw even (omega arith)
      | inr odd ↦
          let some_rest : 0 < size % c = omega (arith, ==→ne (size % c) 0 odd) in
          let sharp : q < n = lt_of_mul-lt-mul_right c (omega (arith, div-add-mod' size c)) in
          rw odd (omega arith)
    ]

module _ {E R S : Type 0} (mods : Modules E R) (v : Evfs E R S) (e : E) (xs : List Chunk)
    (chunk : 0 < v.chunk_size) (size : v.file_size ≡ length (flat text_of xs))
    (chunks : AreChunks mods e 0 xs) (blocks : AreBlocks text_of v.chunk_size xs) where
  chunk_number_chunks : chunk_number v.file_size v.chunk_size ≡ length xs
  chunk_number_chunks =
      chunk_number_unique v.chunk_size v.file_size (length xs) chunk
        (omega (arith, size, length-flat_le text_of v.chunk_size xs blocks))
        (omega (arith, size, number_lt mods e v.chunk_size 0 xs chunk chunks blocks))

  pub raw_file_size_chunks :
      get_chunk_offset mods v e 0 + length (flat raw_of xs) < 2 ^ 64
      → raw_file_size mods v e ≡ get_chunk_offset mods v e 0 + length (flat raw_of xs)
  unfolding raw_file_size get_chunk_offset
  raw_file_size_chunks small =
      rw chunk_number_chunks (omega (arith, size, length-raw_eq mods e 0 xs chunks))

module _ {E R S : Type 0} (mods : Modules E R) (v : Evfs E R S) (e : E) (xs : List Chunk)
    (chunk : 0 < v.chunk_size) (chunks : AreChunks mods e 0 xs)
    (blocks : AreBlocks text_of v.chunk_size xs) where
  chunk_number_raw : chunk_number (length (flat raw_of xs)) (raw_chunk_size mods v e) ≡ length xs
  unfolding raw_chunk_size
  chunk_number_raw =
      let c = v.chunk_size in
      let header = mods.get_chunk_header_size e in
      let size = length-raw_eq mods e 0 xs chunks in
      let both : length xs * (c + header) ≡ length xs * c + length xs * header = grind arith in
      let fits =
        length-flat_le raw_of (c + header) xs (raw-AreBlocks mods e c 0 xs chunks blocks) in
      chunk_number_unique (c + header) (length (flat raw_of xs)) (length xs) (omega arith) fits
        (omega (arith, both, size, number_lt mods e c 0 xs chunk chunks blocks))

  -- The size that is worked out from that of the file is that of the text.
  pub recovered_size-text :
      (size : ℕ)
      → size ≡ get_chunk_offset mods v e 0 + length (flat raw_of xs)
      → size < 2 ^ 64
      → recovered_size mods size e v ≡ length (flat text_of xs)
  unfolding recovered_size get_chunk_offset
  recovered_size-text size whole small =
      let behind = 29 + v.header_extension_size + mods.get_module_file_header_size e in
      let body : (size + 2 ^ 64 - behind) % 2 ^ 64 ≡ length (flat raw_of xs) = omega arith in
      rw (body, chunk_number_raw) (omega (arith, length-raw_eq mods e 0 xs chunks))
