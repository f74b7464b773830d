-- ===== src/EncryptedVfs/Reopened.antt =====
-- What the constructor of src/vfs/vfs_encrypted.cc makes of a file that another object wrote.
use bctoolbox.Common.{
  ℕ, suc, ◌+◌, ◌%◌, ◌^◌, ◌<◌, ◌≡◌, refl, sym, ap, ◌∙◌, some, List, [], ◌∷◌, ◌++◌, arith, length,
  drop, ltb, true, false, Bool-cases, inl, inr, append_assoc, ne→==, length-append,
}
use bctoolbox.Common.Int.{pos, ltb_ℤ}
use bctoolbox.Common.Slices.{drop_exactly}
use bctoolbox.Vfs.{Bytes, File, Methods}
use bctoolbox.Vfs.Open.{Access, Flags}
use bctoolbox.Vfs.Contents.{Stores, Measures}
use bctoolbox.Vfs.Unpaged.{after_read, after_size, size-unpaged}
use bctoolbox.EncryptedVfs.{returns, Modules, Evfs, get_chunk_offset, chunk_size_get, raw_file_size}
use bctoolbox.EncryptedVfs.Header.{base_header, write_header}
use bctoolbox.EncryptedVfs.HeaderFields.{Fits, length-base_header}
use bctoolbox.EncryptedVfs.Settings.{secret_material_set}
use bctoolbox.EncryptedVfs.Open.{Directory, construct, set_up, check_file, new_object}
use bctoolbox.EncryptedVfs.Blocks.{flat}
use bctoolbox.EncryptedVfs.Contents.{Chunk, raw_of, AreChunks, IsCipher, Holds}
use bctoolbox.EncryptedVfs.WriteHeader.{
  header_of, module_part, contents-with_header, write_header-with_header,
}
use bctoolbox.EncryptedVfs.Parsed.{Reread, IsReadBack, found, parsed, parse_header-parsed}
use bctoolbox.EncryptedVfs.Sizes.{raw_file_size_chunks}

module _ {E R : Type 0} (mods : Modules E R) (e e' : E)
    (header : mods.get_chunk_header_size e' ≡ mods.get_chunk_header_size e)
    (decrypts : (i : ℕ) (raw : Bytes)
      → mods.decrypt_chunk e' i raw ≡ mods.decrypt_chunk e i raw) where
  -- The chunks of one module are those of another that decrypts alike.
  pub alike-AreChunks : (i : ℕ) (xs : List Chunk) → AreChunks mods e i xs → AreChunks mods e' i xs
  alike-AreChunks i [] h = tt
  alike-AreChunks i (x ∷ xs) h = (
    record {
      decrypts = decrypts i x.raw ∙ h.0.decrypts;
      header = omega (arith, h.0.header, header);
      some_text = h.0.some_text;
    },
    alike-AreChunks (suc i) xs h.1,
  )

module _ {E R S : Type 0} (mods : Modules E R) (m : Methods S) (contents : S → Bytes)
    (stores : Stores m contents) (measures : Measures m contents) (e : E) (cipher : IsCipher mods e)
    (secret : Bytes) (readback : IsReadBack mods e secret) (v : Evfs E R S) (xs : List Chunk)
    (holds : Holds mods m contents v e xs) (fits : Fits mods e v)
    (no_extension : v.header_extension_size ≡ 0) where
  abbrev base : Bytes
  base = base_header mods v e

  abbrev h : Bytes
  h = module_part mods m contents stores e cipher v

  abbrev body : Bytes
  body = flat raw_of xs

  abbrev on_disk : Bytes
  on_disk = base ++ (h ++ body)

  abbrev h_made : mods.get_module_file_header e base ≡ returns h
  h_made = (cipher.module_header base).1

  abbrev h_size : length h ≡ mods.get_module_file_header_size e
  h_size = (cipher.module_header base).2

  size-on_disk : length on_disk ≡ get_chunk_offset mods v e 0 + length body
  unfolding get_chunk_offset
  size-on_disk = omega (
    arith,
    length-append base (h ++ body),
    length-append h body,
    length-base_header mods e v,
    h_size,
  )

  abbrev module_again : (g : R) → Reread mods e secret base h g
  module_again g = readback.read_back base h g h_made

  -- The object behind the header, and behind the constructor.
  abbrev read_header : Evfs E R S → Evfs E R S
  read_header w =
      parsed mods m contents stores measures e secret readback v fits no_extension holds.chunk h
        h_made h_size
        (found mods m contents stores measures base
          (record w { file_std = after_size m contents measures w.file_std }))

  abbrev reopened : Evfs E R S → Evfs E R S
  reopened w = record (read_header w) { encryption = some (module_again w.rng).keyed }

  module _ (dir : Directory S) (flags : Flags) (name : Bytes) (access : Access) (g : R) (f : File S)
      (unpaged : f.f_size ≡ 0) (there : contents f.disk ≡ on_disk)
      (small : length on_disk < 2 ^ 64) where
    abbrev w : Evfs E R S
    w = new_object f name access g

    set_up-reopened :
        set_up mods m dir flags false (module_again g).keyed (reopened w) ≡ (returns tt, reopened w)
    unfolding set_up check_file chunk_size_get new_object
    set_up-reopened =
        let chunk = ne→== v.chunk_size 0 (λ z. omega (arith, holds.chunk)) in
        elim (Bool-cases (ltb 0 v.file_size)) [
          | inl some_text ↦ rw (chunk, some_text, (module_again g).passes) refl
          | inr no_text ↦ rw (chunk, no_text) refl
        ]

    construct-run :
        construct mods m dir (some (secret_material_set mods secret)) flags w
        ≡ (returns tt, reopened w)
    unfolding construct secret_material_set new_object
    construct-run =
        let some_size : ltb_ℤ (pos 0) (pos (length on_disk)) ≡ true =
          ground (arith, length-append base (h ++ body), length-base_header mods e v) in
        let size : length on_disk % 2 ^ 64 ≡ raw_file_size mods v e = omega (
          arith,
          size-on_disk,
          raw_file_size_chunks mods v e xs holds.chunk holds.size holds.chunks holds.blocks
              (omega (arith, size-on_disk)),
        ) in
        let header =
          parse_header-parsed mods m contents stores measures e secret readback v fits no_extension
            holds.chunk h h_made h_size (record w { file_std = after_size m contents measures f })
            body unpaged (measures.keeps_size f.disk ∙ there) size in
        rw
          (
            size-unpaged m contents measures f unpaged,
            there,
            some_size,
            header,
            (module_again g).keys,
          )
          (rw (size-unpaged m contents measures f unpaged, there, some_size) set_up-reopened)

    contents-reopened : contents (reopened w).file_std.disk ≡ on_disk
    unfolding new_object
    contents-reopened =
        let sized = after_size m contents measures f in
        let twice = after_size m contents measures sized in
        let magic = after_read m contents stores twice 29 0 in
        stores.keeps magic.disk (mods.get_module_file_header_size e) 29
        ∙ stores.keeps twice.disk 29 0
        ∙ measures.keeps_size sized.disk
        ∙ measures.keeps_size f.disk
        ∙ there

    reopened-Holds : Holds mods m contents (reopened w) (module_again g).keyed xs
    unfolding new_object get_chunk_offset
    reopened-Holds =
        let r = module_again g in
        let front : length (base ++ h) ≡ get_chunk_offset mods (reopened w) r.keyed 0 =
          omega (
            arith,
            length-append base h,
            length-base_header mods e v,
            h_size,
            r.keyed_file_header,
          ) in
        record {
          encrypted = refl;
          chunk = holds.chunk;
          size = holds.size;
          number = holds.number;
          chunks = alike-AreChunks mods e r.keyed r.keyed_chunk_header r.decrypts 0 xs holds.chunks;
          blocks = holds.blocks;
          unpaged = unpaged;
          body =
              ap (drop (get_chunk_offset mods (reopened w) r.keyed 0))
                (contents-reopened ∙ sym (append_assoc base h body))
              ∙ drop_exactly (get_chunk_offset mods (reopened w) r.keyed 0) (base ++ h) body front;
        }

    -- The constructor gives an object that holds the same chunks.
    pub construct-header :
        let run = construct mods m dir (some (secret_material_set mods secret)) flags w in
        (run.0 ≡ returns tt)
        × ((e' : E) × IsCipher mods e'
            × Holds mods m contents run.1 e' xs
            × (run.1.chunk_size ≡ v.chunk_size))
    construct-header =
        rw construct-run
          (refl, ((module_again g).keyed, (module_again g).cipher, reopened-Holds, refl))

  pub header_of-on_disk : header_of mods m contents stores e cipher v ++ body ≡ on_disk
  header_of-on_disk = append_assoc base h body

  -- Over a VFS that stores and that measures a file, with a module that is a cipher and that can be
  -- made again, on a file that holds the chunks of a text, without header extension, whose numbers
  -- fit the header and whose size fits 64 bits: once `writeHeader` was called, the constructor on a
  -- file with those contents, whose callback sets the same secret, returns, and its object holds the
  -- same chunks, with a module that is a cipher.
  pub construct-write_header :
      (dir : Directory S) (flags : Flags) (name : Bytes) (access : Access) (g : R) (f : File S)
      → f.f_size ≡ 0
      → contents f.disk ≡ contents (write_header mods m v).1.file_std.disk
      → length (contents f.disk) < 2 ^ 64
      → let run =
          construct mods m dir
            (some (secret_material_set mods secret))
            flags
            (new_object f name access g) in
        (run.0 ≡ returns tt)
        × ((e' : E) × IsCipher mods e'
            × Holds mods m contents run.1 e' xs
            × (run.1.chunk_size ≡ v.chunk_size))
  construct-write_header dir flags name access g f unpaged same small =
      let there =
        same
        ∙ ap (λ r. contents r.1.file_std.disk)
            (write_header-with_header mods m contents stores e cipher v holds.encrypted
              holds.unpaged)
        ∙ contents-with_header mods m contents stores e cipher v no_extension
        ∙ ap (λ s. header_of mods m contents stores e cipher v ++ s) holds.body
        ∙ header_of-on_disk in
      construct-header dir flags name access g f unpaged there (rw there at small)
