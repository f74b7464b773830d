-- ===== src/EncryptedVfs/WriteText.antt =====
-- `write` of src/vfs/vfs_encrypted.cc replaces bytes of the text of a file.
use bctoolbox.Common.{
  ℕ, ◌+◌, ◌-◌, ◌/◌, ◌^◌, ◌<◌, ◌≡◌, refl, sym, ap, ◌∙◌, max, inl, inr, List, ◌++◌, arith, length,
  length-append, ltb, Bool-cases,
}
use bctoolbox.Vfs.{Bytes, Methods}
use bctoolbox.Vfs.Open.{zeros}
use bctoolbox.Vfs.Contents.{patch, stored, Stores}
use bctoolbox.Vfs.Patch.{stored-patch, length-patch, patch-zeros, length-zeros}
use bctoolbox.EncryptedVfs.{returns, Modules, Evfs}
use bctoolbox.EncryptedVfs.Blocks.{flat}
use bctoolbox.EncryptedVfs.Contents.{Chunk, raw_of, text_of, IsCipher, Holds}
use bctoolbox.EncryptedVfs.Write.{write, write_chunks}
use bctoolbox.EncryptedVfs.WriteHeader.{header_of}
use bctoolbox.EncryptedVfs.WriteAt.{write_at-text}

module _ {E R S : Type 0} (mods : Modules E R) (m : Methods S) (contents : S → Bytes)
    (stores : Stores m contents) (e : E) (cipher : IsCipher mods e) where
  -- What a write leaves: a file with chunks of a given text.
  pub record Leaves (v : Evfs E R S) (text : Bytes) (chunk version : ℕ) : Type 0 where
    pub chunks : List Chunk
    pub holds : Holds mods m contents v e chunks
    pub cut : flat text_of chunks ≡ text
    pub no_extension : v.header_extension_size ≡ 0
    pub same_chunk : v.chunk_size ≡ chunk
    pub same_version : v.version_number ≡ version
    pub whole :
        contents v.file_std.disk ≡ header_of mods m contents stores e cipher v ++ flat raw_of chunks

  module _ (v : Evfs E R S) (xs : List Chunk) (holds : Holds mods m contents v e xs) where
    pub write-encrypted :
        (new : Bytes) (o : ℕ) → write mods m new o v ≡ write_chunks mods m e new o v
    unfolding write
    write-encrypted new o = simp holds.encrypted

    write_chunks-text :
        (new : Bytes) (o : ℕ)
        → v.header_extension_size ≡ 0
        → 0 < length new
        → (o + length new) / v.chunk_size < 2 ^ 32 - 1
        → o + length new < 2 ^ 63
        → (v' : Evfs E R S) × (write_chunks mods m e new o v ≡ (returns (length new), v'))
          × Leaves v' (stored o new (flat text_of xs)) v.chunk_size v.version_number
    unfolding write_chunks
    write_chunks-text new o no_extension some_bytes in_range small =
        let text = flat text_of xs in
        let size = max v.file_size (length new + o) in
        elim (Bool-cases (ltb v.file_size o)) [
          | inl behind ↦
              let padded = zeros (o - v.file_size) ++ new in
              let length_padded : length padded ≡ o - v.file_size + length new = omega (
                arith,
                length-append (zeros (o - v.file_size)) new,
                length-zeros (o - v.file_size),
              ) in
              let place : v.file_size + length padded ≡ o + length new = ground arith in
              let result : patch v.file_size padded text ≡ stored o new text =
                ap (λ n. patch n padded text) holds.size
                ∙ patch-zeros (o - v.file_size) new text
                ∙ ap (λ n. patch n new text) (ground (arith, holds.size))
                ∙ sym (stored-patch o new text some_bytes) in
              let (v', ys, run, holds', cut, extension, same, version, headed) =
                write_at-text mods m contents stores e cipher v xs holds no_extension v.file_size
                  padded (omega (arith, holds.size)) (omega arith) (rw place in_range)
                  (omega (arith, place)) size
                  (omega (arith, length-patch v.file_size padded text, holds.size, place)) in
              (
                v',
                rw (behind, run) refl,
                record {
                  chunks = ys;
                  holds = holds';
                  cut = cut ∙ result;
                  no_extension = extension;
                  same_chunk = same;
                  same_version = version;
                  whole = headed;
                },
              )
          | inr inside ↦
              let (v', ys, run, holds', cut, extension, same, version, headed) =
                write_at-text mods m contents stores e cipher v xs holds no_extension o new
                  (ground (arith, holds.size)) some_bytes in_range small size
                  (omega (arith, length-patch o new text, holds.size)) in
              (
                v',
                rw (inside, run) refl,
                record {
                  chunks = ys;
                  holds = holds';
                  cut = cut ∙ sym (stored-patch o new text some_bytes);
                  no_extension = extension;
                  same_chunk = same;
                  same_version = version;
                  whole = headed;
                },
              )
        ]

    -- Over a VFS that stores and a module that is a cipher, on a file without header extension that
    -- holds the chunks of a text, `write` of some bytes in the range of the chunk numbers returns
    -- their number, and the file holds the chunks of the text with the bytes at the offset, behind
    -- zeros where the offset is past its end, and nothing else.
    pub write-text :
        (new : Bytes) (o : ℕ)
        → v.header_extension_size ≡ 0
        → 0 < length new
        → (o + length new) / v.chunk_size < 2 ^ 32 - 1
        → o + length new < 2 ^ 63
        → ((write mods m new o v).0 ≡ returns (length new))
          × Leaves
              (write mods m new o v).1
              (stored o new (flat text_of xs))
              v.chunk_size
              v.version_number
    write-text new o no_extension some_bytes in_range small =
        let (v', run, leaves) = write_chunks-text new o no_extension some_bytes in_range small in
        rw (write-encrypted new o ∙ run) (refl, leaves)
