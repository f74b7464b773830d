-- ===== src/EncryptedVfs/ReadText.antt =====
-- What `read` of src/vfs/vfs_encrypted.cc gives: the text of the file, whatever chunks it is in.
use native.Mathlib.Nat.{div-add-mod'}
use bctoolbox.Common.{
  ℕ, ◌+◌, ◌-◌, ◌*◌, ◌/◌, ◌%◌, ◌^◌, ◌<◌, ◌≡◌, refl, sym, ap, ◌∙◌, List, arith, length, take, drop,
  length-take, length-drop,
}
use bctoolbox.Common.Slices.{drop-drop, take-drop-take}
use bctoolbox.Vfs.{Bytes, Methods}
use bctoolbox.Vfs.Contents.{Stores}
use bctoolbox.Vfs.Unpaged.{after_read, read-unpaged}
use bctoolbox.EncryptedVfs.{
  returns, Modules, Evfs, get_chunk_index, get_chunk_offset, raw_chunk_size,
}
use bctoolbox.EncryptedVfs.Blocks.{
  flat, AreBlocks, drop-flat, take-flat, drop-AreBlocks, take-AreBlocks,
}
use bctoolbox.EncryptedVfs.Read.{decrypt_loop, read, read_chunks}
use bctoolbox.EncryptedVfs.Places.{range-covers, chunk_range, first-le-last}
use bctoolbox.EncryptedVfs.Contents.{
  Chunk, raw_of, text_of, AreChunks, raw-AreBlocks, drop-AreChunks, take-AreChunks, length-raw,
  decrypt_loop-flat, Holds,
}

-- The chunks from `j` on, `k` of them.
abbrev pub part : (j k : ℕ) → List Chunk → List Chunk
part j k xs = take k (drop j xs)

pub flat-part :
    (f : Chunk → Bytes) (n j k : ℕ) (xs : List Chunk)
    → AreBlocks f n xs
    → take (k * n) (drop (j * n) (flat f xs)) ≡ flat f (part j k xs)
flat-part f n j k xs b =
    ap (take (k * n)) (drop-flat f n j xs b)
    ∙ take-flat f n k (drop j xs) (drop-AreBlocks f n j xs b)

module _ {E R S : Type 0} (mods : Modules E R) (m : Methods S) (contents : S → Bytes)
    (stores : Stores m contents) (v : Evfs E R S) (e : E) (xs : List Chunk)
    (holds : Holds mods m contents v e xs) where
  raw_size-Holds : raw_chunk_size mods v e ≡ v.chunk_size + mods.get_chunk_header_size e
  unfolding raw_chunk_size
  raw_size-Holds = refl

  blocks-raw : AreBlocks raw_of (raw_chunk_size mods v e) xs
  unfolding raw_chunk_size
  blocks-raw = raw-AreBlocks mods e v.chunk_size 0 xs holds.chunks holds.blocks

  -- The bytes of some chunks are where `getChunkOffset` says.
  pub raw-part :
      (j k : ℕ)
      → take
          (k * raw_chunk_size mods v e)
          (drop (get_chunk_offset mods v e j) (contents v.file_std.disk))
        ≡ flat raw_of (part j k xs)
  unfolding get_chunk_offset
  raw-part j k =
      let size = raw_chunk_size mods v e in
      let place : get_chunk_offset mods v e j ≡ get_chunk_offset mods v e 0 + j * size =
        grind arith in
      rw place (
        ap (take (k * size)) (
          sym (drop-drop (j * size) (get_chunk_offset mods v e 0) (contents v.file_std.disk))
          ∙ ap (drop (j * size)) holds.body)
        ∙ flat-part raw_of size j k xs blocks-raw)

  -- And they decrypt to their texts.
  pub decrypt-part :
      (j k : ℕ)
      → j < 2 ^ 32
      → decrypt_loop mods e
          (raw_chunk_size mods v e)
          (length (flat raw_of (part j k xs)))
          j
          (flat raw_of (part j k xs))
        ≡ returns (take (k * v.chunk_size) (drop (j * v.chunk_size) (flat text_of xs)))
  unfolding raw_chunk_size
  decrypt-part j k small =
      let chunks =
        take-AreChunks mods e k j (drop j xs)
          (from_zero (drop-AreChunks mods e j 0 xs holds.chunks)) in
      let blocks =
        take-AreBlocks text_of v.chunk_size k (drop j xs)
          (drop-AreBlocks text_of v.chunk_size j xs holds.blocks) in
      decrypt_loop-flat mods e v.chunk_size (length (flat raw_of (part j k xs))) j (part j k xs)
        chunks blocks (length-raw mods e j (part j k xs) chunks)
        (omega (arith, length-take k (drop j xs), length-drop j xs, holds.number))
      ∙ ap returns (sym (flat-part text_of v.chunk_size j k xs holds.blocks))
    where
      from_zero : AreChunks mods e (0 + j) (drop j xs) → AreChunks mods e j (drop j xs)
      from_zero h = let z : 0 + j ≡ j = omega arith in rw z at h

  -- The object behind a read of some chunks.
  abbrev pub after : (j k : ℕ) → Evfs E R S
  after j k = record v {
    file_std =
        after_read m contents stores v.file_std (k * raw_chunk_size mods v e)
          (get_chunk_offset mods v e j);
  }

  after-Holds : (j k : ℕ) → Holds mods m contents (after j k) e xs
  unfolding get_chunk_offset
  after-Holds j k = record {
    encrypted = holds.encrypted;
    chunk = holds.chunk;
    size = holds.size;
    number = holds.number;
    chunks = holds.chunks;
    blocks = holds.blocks;
    unpaged = holds.unpaged;
    body =
        ap (drop (get_chunk_offset mods v e 0))
          (stores.keeps v.file_std.disk (k * raw_chunk_size mods v e) (get_chunk_offset mods v e j))
        ∙ holds.body;
  }

  read_chunks-part :
      (offset count : ℕ)
      → 0 < count
      → (offset + count) / v.chunk_size < 2 ^ 32 - 1
      → offset + count < 2 ^ 63
      → read_chunks mods m e offset count v ≡ (
        returns (take count (drop offset (flat text_of xs))),
        after
            (offset / v.chunk_size)
            ((offset + count - 1) / v.chunk_size - offset / v.chunk_size + 1),
      )
  unfolding read_chunks get_chunk_index
  read_chunks-part offset count some_bytes in_range small =
      let c = v.chunk_size in
      let j = offset / c in
      let l = (offset + count - 1) / c in
      let k = l - j + 1 in
      let text = flat text_of xs in
      let (first, last, between) =
        chunk_range c offset count holds.chunk some_bytes in_range small in
      let raw =
        read-unpaged m contents stores v.file_std (k * raw_chunk_size mods v e)
          (get_chunk_offset mods v e j) holds.unpaged in
      let result : take count (drop (offset % c) (take (k * c) (drop (j * c) text)))
          ≡ take count (drop offset text) =
        take-drop-take count (offset % c) (k * c) (drop (j * c) text)
          (range-covers c offset count holds.chunk some_bytes)
        ∙ ap (take count)
            (drop-drop (offset % c) (j * c) text ∙ ap (λ n. drop n text) (div-add-mod' offset c)) in
      rw
        (
          first,
          last,
          between,
          raw,
          raw-part j k,
          decrypt-part j k (omega (arith, first-le-last c offset count holds.chunk some_bytes)),
          result,
        )
        refl

  read-encrypted :
      (offset count : ℕ) → read mods m offset count v ≡ read_chunks mods m e offset count v
  unfolding read
  read-encrypted offset count = simp holds.encrypted

  -- Over a VFS that stores, and an encrypted file that holds the chunks of a text, `read` of at
  -- least one byte in the range of the chunk numbers gives the bytes that the text has at the
  -- offset, up to the count, and leaves the file with the same chunks.
  pub read-decrypted :
      (offset count : ℕ)
      → 0 < count
      → (offset + count) / v.chunk_size < 2 ^ 32 - 1
      → offset + count < 2 ^ 63
      → ((read mods m offset count v).0 ≡ returns (take count (drop offset (flat text_of xs))))
        × Holds mods m contents (read mods m offset count v).1 e xs
  read-decrypted offset count some_bytes in_range small =
      let done =
        read-encrypted offset count ∙ read_chunks-part offset count some_bytes in_range small in
      let c = v.chunk_size in
      rw done (refl, after-Holds (offset / c) ((offset + count - 1) / c - offset / c + 1))
