-- ===== src/EncryptedVfs/Checked.antt =====
-- The check of every chunk in the constructor of src/vfs/vfs_encrypted.cc.
use bctoolbox.Common.{
  ℕ, zero, suc, ◌+◌, ◌*◌, ◌<◌, ◌≡◌, refl, sym, ap, ◌∙◌, List, arith, length, take, drop,
}
use bctoolbox.Common.Slices.{drop-drop}
use bctoolbox.Vfs.{Bytes, File, Methods}
use bctoolbox.Vfs.Contents.{Stores}
use bctoolbox.Vfs.Unpaged.{after_read, read-unpaged}
use bctoolbox.EncryptedVfs.{returns, Modules, Evfs, get_chunk_offset, raw_chunk_size}
use bctoolbox.EncryptedVfs.Open.{check_chunks}
use bctoolbox.EncryptedVfs.Blocks.{flat, AreBlocks}
use bctoolbox.EncryptedVfs.Contents.{Chunk, raw_of, text_of, AreChunks}
use bctoolbox.EncryptedVfs.Loops.{block_size}
use bctoolbox.EncryptedVfs.ChunkAt.{chunk-at}

module _ {E R S : Type 0} (mods : Modules E R) (m : Methods S) (contents : S → Bytes)
    (stores : Stores m contents) (e : E) (v : Evfs E R S) (xs : List Chunk)
    (chunks : AreChunks mods e 0 xs) (blocks : AreBlocks text_of v.chunk_size xs) where
  abbrev c : ℕ
  c = v.chunk_size

  abbrev size : ℕ
  size = raw_chunk_size mods v e

  abbrev place : ℕ → ℕ
  place i = get_chunk_offset mods v e i

  -- The file behind the reads of the chunks.
  abbrev pub checked : ℕ → File S → File S
  checked zero f = f
  checked (suc k) f = checked k (after_read m contents stores f size (place (suc k)))

  pub keeps-checked : (k : ℕ) (f : File S) → contents (checked k f).disk ≡ contents f.disk
  keeps-checked zero f = refl
  keeps-checked (suc k) f =
      keeps-checked k (after_read m contents stores f size (place (suc k)))
      ∙ stores.keeps f.disk size (place (suc k))

  pub unpaged-checked : (k : ℕ) (f : File S) → (checked k f).f_size ≡ f.f_size
  unpaged-checked zero f = refl
  unpaged-checked (suc k) f =
      unpaged-checked k (after_read m contents stores f size (place (suc k)))

  read-chunk :
      (i : ℕ) (s : Bytes)
      → drop (place 0) s ≡ flat raw_of xs
      → take size (drop (place i) s)
        ≡ take (block_size mods e c) (drop (i * block_size mods e c) (flat raw_of xs))
  unfolding get_chunk_offset raw_chunk_size
  read-chunk i s body =
      let there : place i ≡ place 0 + i * block_size mods e c = grind arith in
      rw there (
        ap (take size) (
          sym (drop-drop (i * block_size mods e c) (place 0) s)
          ∙ ap (drop (i * block_size mods e c)) body))

  -- The check passes, and only reads.
  pub check_chunks-passes :
      (k : ℕ) (f : File S)
      → k * c < length (flat text_of xs)
      → f.f_size ≡ 0
      → drop (place 0) (contents f.disk) ≡ flat raw_of xs
      → check_chunks mods m e k (record v { file_std = f })
        ≡ (returns tt, record v { file_std = checked k f })
  unfolding check_chunks raw_chunk_size get_chunk_offset
  check_chunks-passes zero f inside unpaged body = refl
  check_chunks-passes (suc k) f inside unpaged body =
      let next : k * c < length (flat text_of xs) = grind arith in
      rw
        (
          read-unpaged m contents stores f size (place (suc k)) unpaged,
          read-chunk (suc k) (contents f.disk) body,
          (chunk-at mods e c xs chunks blocks (suc k) inside).0,
        )
        (check_chunks-passes k (after_read m contents stores f size (place (suc k))) next unpaged
          (ap (drop (place 0)) (stores.keeps f.disk size (place (suc k))) ∙ body))
