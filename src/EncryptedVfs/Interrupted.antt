-- ===== src/EncryptedVfs/Interrupted.antt =====
-- A write of src/vfs/vfs_encrypted.cc that is interrupted between its chunks and its header.
use bctoolbox.Common.{
  ℕ, ◌+◌, ◌-◌, ◌/◌, ◌%◌, ◌^◌, ◌<◌, ◌≡◌, ◌≢◌, refl, sym, ap, ◌∙◌, some, List, ◌++◌, length, take,
  drop, arith,
}
use bctoolbox.Common.Slices.{take_exactly, drop_exactly}
use bctoolbox.Vfs.{Bytes, File, Methods}
use bctoolbox.Vfs.Open.{Access, Flags}
use bctoolbox.Vfs.Contents.{stored, Stores, Measures}
use bctoolbox.EncryptedVfs.{returns, Modules, Evfs, get_chunk_offset, raw_file_size}
use bctoolbox.EncryptedVfs.Header.{base_header}
use bctoolbox.EncryptedVfs.HeaderFields.{Fits}
use bctoolbox.EncryptedVfs.Settings.{secret_material_set}
use bctoolbox.EncryptedVfs.Open.{Directory, construct, new_object}
use bctoolbox.EncryptedVfs.Blocks.{flat}
use bctoolbox.EncryptedVfs.Contents.{Chunk, raw_of, text_of, IsCipher, Holds}
use bctoolbox.EncryptedVfs.Write.{write}
use bctoolbox.EncryptedVfs.WriteHeader.{header_of, length-header_of}
use bctoolbox.EncryptedVfs.WriteText.{Leaves, write-text}
use bctoolbox.EncryptedVfs.Parsed.{IsReadBack}
use bctoolbox.EncryptedVfs.Recovered.{construct-stale}

module _ {E R S : Type 0} (mods : Modules E R) (m : Methods S) (contents : S → Bytes)
    (stores : Stores m contents) (measures : Measures m contents) (e : E) (cipher : IsCipher mods e)
    (secret : Bytes) (readback : IsReadBack mods e secret) (v : Evfs E R S) (fits : Fits mods e v)
    (no_extension : v.header_extension_size ≡ 0) (text : Bytes) (v' : Evfs E R S)
    (leaves : Leaves mods m contents stores e cipher v' text v.chunk_size v.version_number)
    (f : File S) (unpaged : f.f_size ≡ 0)
    (torn : contents f.disk
      ≡ header_of mods m contents stores e cipher v
        ++ drop (get_chunk_offset mods v e 0) (contents v'.file_std.disk)) where
  -- The object behind the write, over the file with the old header.
  abbrev left : Evfs E R S
  left = record v' { file_std = f }

  abbrev stale : Evfs E R S
  stale = record left { file_size = v.file_size }

  same_place : get_chunk_offset mods v' e 0 ≡ get_chunk_offset mods v e 0
  unfolding get_chunk_offset
  same_place = rw (leaves.same_chunk, leaves.no_extension, no_extension) refl

  same_raw : raw_file_size mods stale e ≡ raw_file_size mods v e
  unfolding raw_file_size
  same_raw = rw (leaves.same_chunk, leaves.no_extension, no_extension) refl

  same_base : base_header mods stale e ≡ base_header mods v e
  unfolding base_header
  same_base = rw (leaves.same_chunk, leaves.same_version) refl

  same_header :
      header_of mods m contents stores e cipher stale ≡ header_of mods m contents stores e cipher v
  same_header = ap (λ b. b ++ (cipher.module_header b).0) same_base

  header-place : length (header_of mods m contents stores e cipher v) ≡ get_chunk_offset mods v e 0
  unfolding get_chunk_offset
  header-place = omega (arith, length-header_of mods m contents stores e cipher v, no_extension)

  stale-Fits : Fits mods e stale
  stale-Fits = record {
    version = omega (arith, leaves.same_version, fits.version);
    blocks = rw leaves.same_chunk fits.blocks;
    whole_blocks = rw leaves.same_chunk fits.whole_blocks;
    size = fits.size;
  }

  abbrev place : ℕ
  place = get_chunk_offset mods v e 0

  torn-body : drop (get_chunk_offset mods v' e 0) (contents f.disk) ≡ flat raw_of leaves.chunks
  torn-body =
      let after = contents v'.file_std.disk in
      ap (λ n. drop n (contents f.disk)) same_place
      ∙ ap (drop place) torn
      ∙ drop_exactly place (header_of mods m contents stores e cipher v) (drop place after)
          header-place
      ∙ ap (λ n. drop n after) (sym same_place)
      ∙ leaves.holds.body

  torn-header :
      take (get_chunk_offset mods v' e 0) (contents f.disk)
      ≡ header_of mods m contents stores e cipher stale
  torn-header =
      ap (λ n. take n (contents f.disk)) same_place
      ∙ ap (take place) torn
      ∙ take_exactly place (header_of mods m contents stores e cipher v)
          (drop place (contents v'.file_std.disk)) header-place
      ∙ sym same_header

  left-Holds : Holds mods m contents left e leaves.chunks
  unfolding get_chunk_offset
  left-Holds =
      let h = leaves.holds in
      record {
        encrypted = h.encrypted;
        chunk = h.chunk;
        size = h.size;
        number = h.number;
        chunks = h.chunks;
        blocks = h.blocks;
        unpaged = unpaged;
        body = torn-body;
      }

  -- The constructor on what is left, with a text that does not end with a full chunk.
  construct-left :
      (dir : Directory S) (flags : Flags) (name : Bytes) (access : Access) (g : R)
      → length (contents f.disk) < 2 ^ 64
      → raw_file_size mods v e ≢ length (contents f.disk)
      → length text % v.chunk_size ≢ 0
      → let run =
          construct mods m dir
            (some (secret_material_set mods secret))
            flags
            (new_object f name access g) in
        (run.0 ≡ returns tt)
        × ((e' : E) × (cipher' : IsCipher mods e') × Holds mods m contents run.1 e' leaves.chunks
            × (contents run.1.file_std.disk
                ≡ header_of mods m contents stores e' cipher' run.1 ++ flat raw_of leaves.chunks))
  unfolding get_chunk_offset
  construct-left dir flags name access g small other odd =
      construct-stale mods m contents stores measures e cipher secret readback left leaves.chunks
        left-Holds leaves.no_extension v.file_size stale-Fits dir flags name access g f unpaged refl
        small torn-header (rw same_raw other)
        (rw (leaves.holds.size ∙ ap length leaves.cut, leaves.same_chunk) odd)

module _ {E R S : Type 0} (mods : Modules E R) (m : Methods S) (contents : S → Bytes)
    (stores : Stores m contents) (measures : Measures m contents) (e : E) (cipher : IsCipher mods e)
    (secret : Bytes) (readback : IsReadBack mods e secret) where
  -- Over a VFS that stores and that measures a file, with a module that is a cipher and that can be
  -- made again, on an encrypted file without header extension whose numbers fit the header: where a
  -- `write` of some bytes in the range of the chunk numbers is interrupted before its header, so that
  -- the file has the old header in front of the new chunks, and its size, below 2^64, does not match
  -- that header, the constructor, whose callback sets the same secret, returns, and its object holds
  -- chunks of the text with the bytes written, with a module that is a cipher; that text does not
  -- end with a full chunk.
  pub construct-interrupted :
      (v : Evfs E R S) (xs : List Chunk)
      → Holds mods m contents v e xs
      → Fits mods e v
      → v.header_extension_size ≡ 0
      → (new : Bytes) (o : ℕ) → 0 < length new
      → (o + length new) / v.chunk_size < 2 ^ 32 - 1
      → o + length new < 2 ^ 63
      → length (stored o new (flat text_of xs)) % v.chunk_size ≢ 0
      → (dir : Directory S) (flags : Flags) (name : Bytes) (access : Access) (g : R) (f : File S)
      → f.f_size ≡ 0
      → contents f.disk
        ≡ header_of mods m contents stores e cipher v
          ++ drop (get_chunk_offset mods v e 0) (contents (write mods m new o v).1.file_std.disk)
      → length (contents f.disk) < 2 ^ 64
      → raw_file_size mods v e ≢ length (contents f.disk)
      → let run =
          construct mods m dir
            (some (secret_material_set mods secret))
            flags
            (new_object f name access g) in
        (run.0 ≡ returns tt)
        × ((e' : E) × IsCipher mods e'
            × (ys : List Chunk) × Holds mods m contents run.1 e' ys
            × (flat text_of ys ≡ stored o new (flat text_of xs)))
  construct-interrupted v xs holds fits no_extension new o some_bytes in_range below odd dir flags
        name access g f unpaged torn small other =
      let leaves =
        (write-text mods m contents stores e cipher v xs holds new o no_extension some_bytes
          in_range below).1 in
      let (returned, (e', cipher', holds', headed)) =
        construct-left mods m contents stores measures e cipher secret readback v fits no_extension
          (stored o new (flat text_of xs)) (write mods m new o v).1 leaves f unpaged torn dir flags
          name access g small other odd in
      (returned, (e', cipher', leaves.chunks, holds', leaves.cut))
