-- ===== src/EncryptedVfs/ChunkAt.antt =====
-- The chunk of a file of src/vfs/vfs_encrypted.cc that an offset of its text lies in.
use bctoolbox.Common.{
  ℕ, ◌+◌, ◌*◌, ◌≤◌, ◌<◌, ◌≡◌, ap, ◌∙◌, inl, inr, List, [], ◌∷◌, arith, length, take, drop,
  length-drop,
}
use bctoolbox.Common.Slices.{take-nil}
use bctoolbox.EncryptedVfs.{returns, Modules}
use bctoolbox.EncryptedVfs.Blocks.{flat, AreBlocks, drop-flat, drop-AreBlocks, take-first}
use bctoolbox.EncryptedVfs.Contents.{
  Chunk, raw_of, text_of, IsChunk, AreChunks, raw-AreBlocks, drop-AreChunks, some_or_none,
}
use bctoolbox.EncryptedVfs.Loops.{block_size}
use bctoolbox.EncryptedVfs.ReadText.{part}

module _ {E R : Type 0} (mods : Modules E R) (e : E) (c : ℕ) where
  first-IsChunk :
      (i : ℕ) (xs : List Chunk)
      → AreChunks mods e i xs
      → AreBlocks text_of c xs
      → 0 < length (flat text_of xs)
      → IsChunk mods e i (record {
        raw = take (block_size mods e c) (flat raw_of xs);
        text = take c (flat text_of xs);
      })
  first-IsChunk i [] chunks blocks more = absurd (omega arith)
  first-IsChunk i (x ∷ xs) chunks blocks more =
      let raw =
        take-first raw_of (block_size mods e c) x xs
          (raw-AreBlocks mods e c i (x ∷ xs) chunks blocks) in
      rw (raw, take-first text_of c x xs blocks) chunks.0

  module _ (xs : List Chunk) (chunks : AreChunks mods e 0 xs)
      (blocks : AreBlocks text_of c xs) where
    abbrev size : ℕ
    size = block_size mods e c

    raw_blocks : AreBlocks raw_of size xs
    raw_blocks = raw-AreBlocks mods e c 0 xs chunks blocks

    -- The chunk at an offset within the text.
    pub IsChunk-at :
        (i : ℕ)
        → i * c < length (flat text_of xs)
        → IsChunk mods e i (record {
          raw = take size (drop (i * size) (flat raw_of xs));
          text = take c (drop (i * c) (flat text_of xs));
        })
    IsChunk-at i inside =
        let z : 0 + i ≡ i = omega arith in
        let from_i = rw z at (drop-AreChunks mods e i 0 xs chunks) in
        rw (drop-flat raw_of size i xs raw_blocks, drop-flat text_of c i xs blocks)
          (first-IsChunk i (drop i xs) from_i (drop-AreBlocks text_of c i xs blocks) (
            omega (
              arith,
              ap length (drop-flat text_of c i xs blocks),
              length-drop (i * c) (flat text_of xs),
            )))

    pub chunk-at :
        (i : ℕ)
        → i * c < length (flat text_of xs)
        → (mods.decrypt_chunk e i (take size (drop (i * size) (flat raw_of xs)))
            ≡ returns (take c (drop (i * c) (flat text_of xs))))
          × (0 < length (take size (drop (i * size) (flat raw_of xs))))
    chunk-at i inside =
        let h = IsChunk-at i inside in (h.decrypts, omega (arith, h.header, h.some_text))

    pub nothing-at : (i k : ℕ) → length (flat text_of xs) ≤ i * c → flat raw_of (part i k xs) ≡ []
    nothing-at i k outside =
        elim (some_or_none mods e (0 + i) (drop i xs) (drop-AreChunks mods e i 0 xs chunks)) [
          | inl empty ↦ ap (λ l. flat raw_of (take k l)) empty ∙ ap (flat raw_of) (take-nil k)
          | inr more ↦ absurd (
              omega (
                arith,
                ap length (drop-flat text_of c i xs blocks),
                length-drop (i * c) (flat text_of xs),
              ))
        ]
