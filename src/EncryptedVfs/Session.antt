-- ===== src/EncryptedVfs/Session.antt =====
-- Writes and reads of an encrypted file of src/vfs/vfs_encrypted.cc in a row.
use bctoolbox.Common.{
  ℕ, ◌+◌, ◌-◌, ◌/◌, ◌^◌, ◌<◌, ◌≡◌, refl, sym, ap, ◌∙◌, some, List, arith, length, take, drop,
  length-append,
}
use bctoolbox.Common.Slices.{take_exactly}
use bctoolbox.Vfs.{Bytes, File, Methods}
use bctoolbox.Vfs.Open.{Access, Flags}
use bctoolbox.Vfs.Contents.{patch, stored, Stores, Measures}
use bctoolbox.Vfs.Patch.{drop-patch, patch-front, stored-patch}
use bctoolbox.EncryptedVfs.{returns, Modules, Evfs}
use bctoolbox.EncryptedVfs.Blocks.{flat}
use bctoolbox.EncryptedVfs.WriteHeader.{header_of}
use bctoolbox.EncryptedVfs.Contents.{Chunk, raw_of, text_of, length-raw_eq, IsCipher, Holds}
use bctoolbox.EncryptedVfs.Read.{read}
use bctoolbox.EncryptedVfs.Write.{write}
use bctoolbox.EncryptedVfs.Settings.{secret_material_set}
use bctoolbox.EncryptedVfs.Open.{Directory, construct, new_object}
use bctoolbox.EncryptedVfs.HeaderFields.{Fits}
use bctoolbox.EncryptedVfs.Parsed.{IsReadBack}
use bctoolbox.EncryptedVfs.Reopened.{construct-header, header_of-on_disk}
use bctoolbox.EncryptedVfs.ReadText.{read-decrypted}
use bctoolbox.EncryptedVfs.WriteText.{Leaves, write-text}

-- The bytes that were written, where they were written.
pub take-stored :
    (o : ℕ) (new text : Bytes)
    → 0 < length new
    → take (length new) (drop o (stored o new text)) ≡ new
take-stored o new text some_bytes =
    let place : o ≡ o + 0 = omega arith in
    ap (λ s. take (length new) (drop o s))
      (stored-patch o new text some_bytes ∙ ap (λ n. patch n new text) place)
    ∙ ap (take (length new)) (drop-patch o 0 new text ∙ patch-front new (drop o text))
    ∙ take_exactly (length new) new (drop (length new) (drop o text)) refl

module _ {E R S : Type 0} (mods : Modules E R) (m : Methods S) (contents : S → Bytes)
    (stores : Stores m contents) (measures : Measures m contents) (e : E) (cipher : IsCipher mods e)
    (secret : Bytes) (readback : IsReadBack mods e secret) where
  -- The numbers of the object still fit the header behind a write.
  Leaves-Fits :
      (v v' : Evfs E R S) (text : Bytes)
      → Fits mods e v
      → Leaves mods m contents stores e cipher v' text v.chunk_size v.version_number
      → length (contents v'.file_std.disk) < 2 ^ 64
      → Fits mods e v'
  Leaves-Fits v v' text fits leaves small = record {
    version = omega (arith, leaves.same_version, fits.version);
    blocks = rw leaves.same_chunk fits.blocks;
    whole_blocks = rw leaves.same_chunk fits.whole_blocks;
    size = omega (
      arith,
      small,
      ap length leaves.whole,
      length-append (header_of mods m contents stores e cipher v') (flat raw_of leaves.chunks),
      length-raw_eq mods e 0 leaves.chunks leaves.holds.chunks,
      leaves.holds.size,
    );
  }

  -- Over a VFS that stores and that measures a file, with a module that is a cipher and that can be
  -- made again, on an encrypted file without header extension whose numbers fit the header and whose
  -- size fits 64 bits: what a `write` of some bytes made of the file is opened by the constructor,
  -- with a callback that sets the same secret, and then a `read` gives what the text has with those
  -- bytes written; both in the range of the chunk numbers.
  pub read-reopened :
      (v : Evfs E R S) (xs : List Chunk)
      → Holds mods m contents v e xs
      → Fits mods e v
      → v.header_extension_size ≡ 0
      → (new : Bytes) (o : ℕ) → 0 < length new
      → (o + length new) / v.chunk_size < 2 ^ 32 - 1
      → o + length new < 2 ^ 63
      → (dir : Directory S) (flags : Flags) (name : Bytes) (access : Access) (g : R) (f : File S)
      → f.f_size ≡ 0
      → contents f.disk ≡ contents (write mods m new o v).1.file_std.disk
      → length (contents f.disk) < 2 ^ 64
      → (offset count : ℕ) → 0 < count
      → (offset + count) / v.chunk_size < 2 ^ 32 - 1
      → offset + count < 2 ^ 63
      → let run =
          construct mods m dir
            (some (secret_material_set mods secret))
            flags
            (new_object f name access g) in
        (run.0 ≡ returns tt)
        × ((read mods m offset count run.1).0
            ≡ returns (take count (drop offset (stored o new (flat text_of xs)))))
  read-reopened v xs holds fits no_extension new o some_bytes in_range small dir flags name access g
        f unpaged same size offset count some_count range_read small_read =
      let v' = (write mods m new o v).1 in
      let leaves =
        (write-text mods m contents stores e cipher v xs holds new o no_extension some_bytes
          in_range small).1 in
      let fits' =
        Leaves-Fits v v' (stored o new (flat text_of xs)) fits leaves (rw (sym same) size) in
      let there =
        same
        ∙ leaves.whole
        ∙ header_of-on_disk mods m contents stores measures e cipher secret readback v'
            leaves.chunks leaves.holds fits' leaves.no_extension in
      let (returned, (e', cipher', holds', chunk)) =
        construct-header mods m contents stores measures e cipher secret readback v' leaves.chunks
          leaves.holds fits' leaves.no_extension dir flags name access g f unpaged there
          (rw there at size) in
      let run =
        construct mods m dir (some (secret_material_set mods secret)) flags
          (new_object f name access g) in
      let range_left : (offset + count) / run.1.chunk_size < 2 ^ 32 - 1 =
        rw (chunk ∙ leaves.same_chunk) range_read in
      (
        returned,
        (read-decrypted mods m contents stores run.1 e' leaves.chunks holds' offset count some_count
              range_left small_read).0
            ∙ ap (λ s. returns (take count (drop offset s))) leaves.cut,
      )
