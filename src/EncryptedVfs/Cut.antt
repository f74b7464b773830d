-- ===== src/EncryptedVfs/Cut.antt =====
-- The chunks of a file of src/vfs/vfs_encrypted.cc that is made shorter: those in front of the new end,
-- and the one that it lies in, with what is left of its text.
use native.Mathlib.Nat.{div-add-mod', mod-lt}
use bctoolbox.Common.{
  ℕ, ◌+◌, ◌*◌, ◌/◌, ◌%◌, ◌<◌, ◌≤◌, ◌≡◌, sym, ap, ◌∙◌, List, [], ◌∷◌, ◌++◌, arith, length, take,
  drop, length-take, inr, append-nil,
}
use bctoolbox.Common.Slices.{take-add}
use bctoolbox.Vfs.{Bytes}
use bctoolbox.EncryptedVfs.{Modules}
use bctoolbox.EncryptedVfs.Blocks.{
  flat, AreBlocks, take-flat, take-AreBlocks, flat-append, length-flat_le, append-AreBlocks,
}
use bctoolbox.EncryptedVfs.Contents.{
  Chunk, raw_of, text_of, IsChunk, AreChunks, raw-AreBlocks, take-AreChunks, append-AreChunks,
}
use bctoolbox.EncryptedVfs.Loops.{block_size}
use bctoolbox.EncryptedVfs.NewChunks.{at_most}

module _ {E R : Type 0} (mods : Modules E R) (e : E) (c : ℕ) (chunk : 0 < c) where
  -- Chunks whose text is the given one, and whose bytes are.
  pub record AreLeft (text raw : Bytes) (ys : List Chunk) : Type 0 where
    pub chunks : AreChunks mods e 0 ys
    pub blocks : AreBlocks text_of c ys
    pub texts : flat text_of ys ≡ text
    pub raws : flat raw_of ys ≡ raw

  module _ (xs : List Chunk) (chunks : AreChunks mods e 0 xs) (blocks : AreBlocks text_of c xs)
      (n : ℕ) (inside : n < length (flat text_of xs)) where
    abbrev pub size : ℕ
    size = block_size mods e c

    abbrev pub i : ℕ
    i = n / c

    abbrev text : Bytes
    text = flat text_of xs

    abbrev pub in_front : List Chunk
    in_front = take i xs

    in_front-texts : flat text_of in_front ≡ take (i * c) text
    in_front-texts = sym (take-flat text_of c i xs blocks)

    in_front-raws : flat raw_of in_front ≡ take (i * size) (flat raw_of xs)
    in_front-raws = sym (take-flat raw_of size i xs (raw-AreBlocks mods e c 0 xs chunks blocks))

    pub in_front-number : length in_front ≡ i
    in_front-number =
        let few : i ≤ length xs =
          at_most i (length xs) c
            (omega (arith, div-add-mod' n c, length-flat_le text_of c xs blocks)) in
        omega (arith, length-take i xs)

    in_front-full : length (flat text_of in_front) ≡ length in_front * c
    in_front-full =
        rw in_front-number
          (omega (arith, ap length in_front-texts, length-take (i * c) text, div-add-mod' n c))

    -- The end is one of a chunk.
    pub in_front-AreLeft :
        n % c ≡ 0 → AreLeft (take n text) (take (i * size) (flat raw_of xs)) in_front
    in_front-AreLeft even = record {
      chunks = take-AreChunks mods e i 0 xs chunks;
      blocks = take-AreBlocks text_of c i xs blocks;
      texts = in_front-texts ∙ ap (λ k. take k text) (omega (arith, div-add-mod' n c));
      raws = in_front-raws;
    }

    -- The end is within a chunk, of which `x` is left.
    pub cut-AreLeft :
        (x : Chunk)
        → IsChunk mods e i x
        → x.text ≡ take (n % c) (drop (i * c) text)
        → AreLeft (take n text) (take (i * size) (flat raw_of xs) ++ x.raw) (in_front ++ x ∷ [])
    cut-AreLeft x is_chunk x_text =
        let z : i ≡ 0 + length in_front = omega (arith, in_front-number) in
        let short : length x.text ≤ c =
          omega
            (arith, ap length x_text, length-take (n % c) (drop (i * c) text), mod-lt n chunk) in
        record {
          chunks =
              append-AreChunks mods e 0 in_front (x ∷ []) (take-AreChunks mods e i 0 xs chunks)
                (rw z at is_chunk, tt);
          blocks =
              append-AreBlocks text_of c in_front (x ∷ []) (take-AreBlocks text_of c i xs blocks)
                (short, tt) (inr in_front-full);
          texts =
              flat-append text_of in_front (x ∷ [])
              ∙ ap (λ s. s ++ flat text_of (x ∷ [])) in_front-texts
              ∙ ap (λ s. take (i * c) text ++ s) (append-nil x.text ∙ x_text)
              ∙ take-add (i * c) (n % c) text
              ∙ ap (λ k. take k text) (div-add-mod' n c);
          raws =
              flat-append raw_of in_front (x ∷ [])
              ∙ ap (λ s. s ++ flat raw_of (x ∷ [])) in_front-raws
              ∙ ap (λ s. take (i * size) (flat raw_of xs) ++ s) (append-nil x.raw);
        }
