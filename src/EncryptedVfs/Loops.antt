-- ===== src/EncryptedVfs/Loops.antt =====
-- The loops of `write` of src/vfs/vfs_encrypted.cc, over a module that is a cipher: the text is cut
-- into chunks, the first of which take the place of those that were there.
use bctoolbox.Common.{
  ℕ, zero, suc, ◌+◌, ◌*◌, ◌%◌, ◌^◌, ◌≤◌, ◌<◌, ◌≡◌, refl, ap, ◌∙◌, List, [], ◌∷◌, ◌++◌, arith,
  length, take, drop, length-append, length-take, length-drop, append_assoc,
}
use bctoolbox.Common.Slices.{take-append-drop}
use bctoolbox.Vfs.{Bytes}
use bctoolbox.EncryptedVfs.{returns, Modules, Evfs, pure, randomly, ◌>>=◌}
use bctoolbox.EncryptedVfs.Blocks.{flat, Fills, AreBlocks, take-first, drop-first}
use bctoolbox.EncryptedVfs.Contents.{
  Chunk, raw_of, text_of, IsChunk, IsCipher, AreChunks, raw-AreBlocks,
}
use bctoolbox.EncryptedVfs.Write.{overwrite_loop, append_loop}

module _ {E R : Type 0} (mods : Modules E R) (e : E) (c : ℕ) where
  -- Chunks from the index `i` on with the given text.
  pub record Cut (i : ℕ) (text : Bytes) (ys : List Chunk) : Type 0 where
    pub chunks : AreChunks mods e i ys
    pub blocks : AreBlocks text_of c ys
    pub cut : flat text_of ys ≡ text

  piece-Fills :
      (i : ℕ) (text : Bytes) (ys : List Chunk)
      → AreChunks mods e i ys
      → flat text_of ys ≡ drop c text
      → Fills text_of (length (take c text)) c ys
  piece-Fills i text [] chunks rest = omega (arith, length-take c text)
  piece-Fills i text (y ∷ ys) chunks rest = omega (
    arith,
    length-take c text,
    length-drop c text,
    ap length rest,
    length-append y.text (flat text_of ys),
    chunks.0.some_text,
  )

  -- A first chunk and those of the rest.
  pub Cut-first :
      (i : ℕ) (text raw : Bytes) (ys : List Chunk)
      → IsChunk mods e i (record { raw = raw; text = take c text })
      → Cut (suc i) (drop c text) ys
      → Cut i text (record { raw = raw; text = take c text } ∷ ys)
  Cut-first i text raw ys chunk rest = record {
    chunks = (chunk, rest.chunks);
    blocks = (piece-Fills (suc i) text ys rest.chunks rest.cut, rest.blocks);
    cut = ap (λ s. take c text ++ s) rest.cut ∙ take-append-drop c text;
  }

abbrev pub block_size : {E R : Type 0} → Modules E R → E → ℕ → ℕ
block_size mods e c = c + mods.get_chunk_header_size e

abbrev pub drawn : {E R S : Type 0} → Evfs E R S → R → Evfs E R S
drawn v g = record v { rng = g }

module _ {E R S : Type 0} (mods : Modules E R) (e : E) (cipher : IsCipher mods e) (c : ℕ)
    (some_chunk : 0 < c) where
  pub append_loop-Cut :
      (n k i : ℕ) (text : Bytes) (v : Evfs E R S)
      → length text ≤ k
      → length text ≤ n * c
      → i + n < 2 ^ 32
      → (ys : List Chunk) × (g : R) × (append_loop mods e c k i text v
          ≡ (returns (flat raw_of ys), drawn v g))
        × Cut mods e c i text ys
  unfolding append_loop
  append_loop-Cut n k i [] v enough few small =
      ([], v.rng, ground arith, record { chunks = tt; blocks = tt; cut = refl })
  append_loop-Cut n zero i (b ∷ text) v enough few small = absurd (omega arith)
  append_loop-Cut zero (suc k) i (b ∷ text) v enough few small =
      let none_left : 0 * c ≡ 0 = grind arith in absurd (omega arith)
  append_loop-Cut (suc n) (suc k) i (b ∷ text) v enough few small =
      let piece = take c (b ∷ text) in
      let count : suc n * c ≡ c + n * c = grind arith in
      let (raw, made, chunk) =
        cipher.encrypts i piece v.rng (omega arith) (omega (arith, length-take c (b ∷ text))) in
      let (ys, g, run, rest) =
        append_loop-Cut n k (suc i) (drop c (b ∷ text))
          (drawn v (mods.encrypt_chunk e i piece v.rng).1) (omega (arith, length-drop c (b ∷ text)))
          (omega (arith, length-drop c (b ∷ text), count)) (omega arith) in
      let next : (i + 1) % 2 ^ 32 ≡ suc i = omega arith in
      (
        record { raw = raw; text = piece } ∷ ys,
        g,
        rw (made, next, run) refl,
        Cut-first mods e c i (b ∷ text) raw ys chunk rest,
      )

  -- One round of the first loop.
  overwrite_loop-step :
      (size k i : ℕ) (raw text : Bytes)
      → 0 < length raw
      → overwrite_loop {S = S} mods e c size (suc k) i raw text ≡ (do
        new ← randomly (mods.encrypt_chunk_again e i (take size raw) (take c text))
        (out, rest, next) ←
            overwrite_loop mods e c size k ((i + 1) % 2 ^ 32) (drop size raw) (drop c text)
        pure (new ++ out, rest, next))
  unfolding overwrite_loop
  overwrite_loop-step size k i [] text h = absurd (omega arith)
  overwrite_loop-step size k i (b ∷ raw) text h = refl

  -- What both loops give, one behind the other.
  pub record Rewrites (size k i : ℕ) (raw text : Bytes) (v : Evfs E R S) : Type 0 where
    pub over : Bytes
    pub rest : Bytes
    pub next : ℕ
    pub new : Bytes
    pub g1 : R
    pub g2 : R
    pub ys : List Chunk
    pub overwrites :
        overwrite_loop mods e c size k i raw text v ≡ (returns (over, rest, next), drawn v g1)
    pub appends :
        append_loop mods e c (length rest) next rest (drawn v g1) ≡ (returns new, drawn v g2)
    pub bytes : over ++ new ≡ flat raw_of ys
    pub is_cut : Cut mods e c i text ys

  pub loops-Rewrites :
      (n k i : ℕ) (xs : List Chunk) (text : Bytes) (v : Evfs E R S)
      → AreChunks mods e i xs
      → AreBlocks text_of c xs
      → length xs ≤ k
      → length xs * c < length text + c
      → length text ≤ n * c
      → i + n < 2 ^ 32
      → Rewrites (block_size mods e c) k i (flat raw_of xs) text v
  unfolding overwrite_loop
  loops-Rewrites n k i [] text v chunks blocks enough many few small =
      let (ys, g, run, is_cut) = append_loop-Cut n (length text) i text v (omega arith) few small in
      record {
        over = [];
        rest = text;
        next = i;
        new = flat raw_of ys;
        g1 = v.rng;
        g2 = g;
        ys = ys;
        overwrites = ground arith;
        appends = run;
        bytes = refl;
        is_cut = is_cut;
      }
  loops-Rewrites n zero i (x ∷ xs) text v chunks blocks enough many few small = absurd (omega arith)
  loops-Rewrites zero (suc k) i (x ∷ xs) text v chunks blocks enough many few small =
      let none_left : 0 * c ≡ 0 = grind arith in
      let count : suc (length xs) * c ≡ c + length xs * c = grind arith in absurd (omega arith)
  loops-Rewrites (suc n) (suc k) i (x ∷ xs) text v chunks blocks enough many few small =
      let size = block_size mods e c in
      let piece = take c text in
      let count : suc n * c ≡ c + n * c = grind arith in
      let had : suc (length xs) * c ≡ c + length xs * c = grind arith in
      let raw_blocks = raw-AreBlocks mods e c i (x ∷ xs) chunks blocks in
      let (raw, made, chunk) =
        cipher.encrypts_again i x piece v.rng chunks.0 (omega arith)
          (omega (arith, length-take c text)) in
      let r =
        loops-Rewrites n k (suc i) xs (drop c text)
          (drawn v (mods.encrypt_chunk_again e i x.raw piece v.rng).1) chunks.1 blocks.1
          (omega arith) (omega (arith, length-drop c text)) (omega (arith, length-drop c text))
          (omega arith) in
      let next : (i + 1) % 2 ^ 32 ≡ suc i = omega arith in
      let some_raw : 0 < length (flat raw_of (x ∷ xs)) =
        omega (arith, length-append x.raw (flat raw_of xs), chunks.0.header, chunks.0.some_text) in
      record {
        over = raw ++ r.over;
        rest = r.rest;
        next = r.next;
        new = r.new;
        g1 = r.g1;
        g2 = r.g2;
        ys = record { raw = raw; text = piece } ∷ r.ys;
        overwrites =
            ap (λ f. f v) (overwrite_loop-step size k i (flat raw_of (x ∷ xs)) text some_raw)
            ∙ rw
                (
                  take-first raw_of size x xs raw_blocks,
                  drop-first raw_of size x xs raw_blocks,
                  made,
                  next,
                  r.overwrites,
                )
                refl;
        appends = r.appends;
        bytes = append_assoc raw r.over r.new ∙ ap (λ s. raw ++ s) r.bytes;
        is_cut = Cut-first mods e c i text raw r.ys chunk r.is_cut;
      }
