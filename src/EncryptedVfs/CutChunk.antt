-- ===== src/EncryptedVfs/CutChunk.antt =====
-- How `truncate` of src/vfs/vfs_encrypted.cc cuts the chunk that the new end lies in.
use native.Mathlib.Nat.{div-add-mod', mod-lt}
use bctoolbox.Common.{
  ℕ, ◌+◌, ◌-◌, ◌*◌, ◌/◌, ◌%◌, ◌^◌, ◌<◌, ◌≤◌, ◌≡◌, refl, sym, ap, ◌∙◌, ◌++◌, List, arith, length,
  take, drop, length-take, length-drop, append-nil, append_assoc, length-append, eq→==,
}
use bctoolbox.Common.Slices.{drop-drop, take-take, take_exactly}
use bctoolbox.Vfs.{Bytes, Methods}
use bctoolbox.Vfs.Open.{zeros}
use bctoolbox.Vfs.Contents.{patch, Stores}
use bctoolbox.Vfs.Patch.{stored-patch, patch-inside, drop-patch, length-patch}
use bctoolbox.Vfs.Unpaged.{after_read, read-unpaged, after_write, write-unpaged}
use bctoolbox.EncryptedVfs.{
  returns, Modules, Evfs, raw_chunk_size, get_chunk_offset, get_chunk_index,
}
use bctoolbox.EncryptedVfs.Blocks.{flat}
use bctoolbox.EncryptedVfs.Contents.{Chunk, raw_of, text_of, IsChunk, IsCipher, Holds}
use bctoolbox.EncryptedVfs.ChunkAt.{IsChunk-at}
use bctoolbox.EncryptedVfs.Loops.{block_size}
use bctoolbox.EncryptedVfs.Write.{cut_chunk, resize}

pub resize-take : (n : ℕ) (s : Bytes) → n ≤ length s → resize n s ≡ take n s
resize-take n s h =
    let z : n - length s ≡ 0 = omega arith in
    ap (λ k. take n s ++ zeros k) z ∙ append-nil (take n s)

module _ {E R S : Type 0} (mods : Modules E R) (m : Methods S) (contents : S → Bytes)
    (stores : Stores m contents) (e : E) (cipher : IsCipher mods e) (v : Evfs E R S)
    (xs : List Chunk) (holds : Holds mods m contents v e xs) (n : ℕ)
    (inside : n < length (flat text_of xs)) (in_range : n / v.chunk_size < 2 ^ 32)
    (some_part : 0 < n % v.chunk_size) where
  abbrev c : ℕ
  c = v.chunk_size

  abbrev i : ℕ
  i = n / c

  abbrev size : ℕ
  size = block_size mods e c

  abbrev text : Bytes
  text = flat text_of xs

  -- The chunk as it is, and its place in the file.
  abbrev pub old : Chunk
  old = record {
    raw = take size (drop (i * size) (flat raw_of xs));
    text = take c (drop (i * c) text);
  }

  abbrev pub place : ℕ
  place = get_chunk_offset mods v e i

  at_most_inside : i * c < length text
  at_most_inside = omega (arith, div-add-mod' n c)

  pub old-IsChunk : IsChunk mods e i old
  old-IsChunk = IsChunk-at mods e c xs holds.chunks holds.blocks i at_most_inside

  place_eq : place ≡ get_chunk_offset mods v e 0 + i * size
  unfolding get_chunk_offset raw_chunk_size
  place_eq = grind arith

  drop-place : drop place (contents v.file_std.disk) ≡ drop (i * size) (flat raw_of xs)
  drop-place =
      let first = get_chunk_offset mods v e 0 in
      ap (λ k. drop k (contents v.file_std.disk)) place_eq
      ∙ sym (drop-drop (i * size) first (contents v.file_std.disk))
      ∙ ap (drop (i * size)) holds.body

  abbrev pub new_text : Bytes
  new_text = take (n % c) (drop (i * c) text)

  resized : resize (n % c) old.text ≡ new_text
  resized =
      let rest = drop (i * c) text in
      let small : n % c ≤ c = omega (arith, mod-lt n holds.chunk) in
      resize-take (n % c) old.text
        (omega (arith, length-take c rest, length-drop (i * c) text, div-add-mod' n c))
      ∙ take-take (n % c) c rest small

  pub new_text_some : 0 < length new_text
  new_text_some =
      omega
        (arith, length-take (n % c) (drop (i * c) text), length-drop (i * c) text, div-add-mod' n c)

  abbrev made :
      (raw : Bytes) × ((mods.encrypt_chunk_again e i old.raw new_text v.rng).0 ≡ returns raw)
      × IsChunk mods e i (record { raw = raw; text = new_text })
  made = cipher.encrypts_again i old new_text v.rng old-IsChunk in_range new_text_some

  -- The chunk that is left of it.
  abbrev pub left_chunk : Chunk
  left_chunk = record { raw = made.0; text = new_text }

  pub left_chunk-IsChunk : IsChunk mods e i left_chunk
  left_chunk-IsChunk = made.2

  abbrev pub with_cut : Evfs E R S
  with_cut = record v {
    file_std =
        after_write m contents stores (after_read m contents stores v.file_std size place)
          left_chunk.raw place;
    rng = (mods.encrypt_chunk_again e i old.raw new_text v.rng).1;
  }

  pub cut_chunk-with_cut : cut_chunk mods m e n v ≡ (returns tt, with_cut)
  unfolding cut_chunk get_chunk_index raw_chunk_size
  cut_chunk-with_cut =
      let index : i % 2 ^ 32 ≡ i = omega arith in
      let file = after_read m contents stores v.file_std size place in
      rw
        (
          index,
          read-unpaged m contents stores v.file_std size place holds.unpaged,
          drop-place,
          old-IsChunk.decrypts,
          resized,
          made.1,
          write-unpaged m contents stores file left_chunk.raw place holds.unpaged,
          eq→== (length left_chunk.raw) (length left_chunk.raw) refl,
        )
        refl

  -- The file below with the new chunk.
  contents-with_cut :
      contents with_cut.file_std.disk ≡ patch place left_chunk.raw (contents v.file_std.disk)
  contents-with_cut =
      let file = after_read m contents stores v.file_std size place in
      let some_raw : 0 < length left_chunk.raw =
        omega (arith, left_chunk-IsChunk.header, new_text_some) in
      stores.holds file.disk left_chunk.raw place
      ∙ stored-patch place left_chunk.raw (contents file.disk) some_raw
      ∙ ap (patch place left_chunk.raw) (stores.keeps v.file_std.disk size place)

  abbrev raw : Bytes
  raw = flat raw_of xs

  pub before-inside : i * size ≤ length raw
  before-inside = omega (
    arith,
    length-take size (drop (i * size) raw),
    length-drop (i * size) raw,
    old-IsChunk.header,
    old-IsChunk.some_text,
  )

  pub body-with_cut :
      take
        (i * size + length left_chunk.raw)
        (drop (get_chunk_offset mods v e 0) (contents with_cut.file_std.disk))
      ≡ take (i * size) raw ++ left_chunk.raw
  body-with_cut =
      let first = get_chunk_offset mods v e 0 in
      let d = contents v.file_std.disk in
      let front = take (i * size) raw in
      let rest = drop (i * size + length left_chunk.raw) raw in
      let count = i * size + length left_chunk.raw in
      ap (λ s. take count (drop first s))
        (contents-with_cut ∙ ap (λ k. patch k left_chunk.raw d) place_eq)
      ∙ ap (take count) (
          drop-patch first (i * size) left_chunk.raw d
          ∙ ap (patch (i * size) left_chunk.raw) holds.body
          ∙ patch-inside (i * size) left_chunk.raw raw before-inside
          ∙ sym (append_assoc front left_chunk.raw rest))
      ∙ take_exactly count (front ++ left_chunk.raw) rest (
          omega
            (arith, length-append front left_chunk.raw, length-take (i * size) raw, before-inside))

  pub room-with_cut :
      get_chunk_offset mods v e 0 + (i * size + length left_chunk.raw)
      ≤ length (contents with_cut.file_std.disk)
  room-with_cut = omega (
    arith,
    ap length contents-with_cut,
    length-patch place left_chunk.raw (contents v.file_std.disk),
    place_eq,
  )

  -- The file does not become longer.
  pub fewer : i * size + length left_chunk.raw ≤ length raw
  fewer = omega (
    arith,
    left_chunk-IsChunk.header,
    old-IsChunk.header,
    length-take size (drop (i * size) raw),
    length-drop (i * size) raw,
    length-take c (drop (i * c) text),
    length-take (n % c) (drop (i * c) text),
    mod-lt n holds.chunk,
    before-inside,
  )
