-- ===== src/EncryptedVfs/Recovered.antt =====
-- The constructor of src/vfs/vfs_encrypted.cc on a file whose header was left behind: the chunks are
-- those of a later write.
use bctoolbox.Common.{
  ℕ, ◌+◌, ◌*◌, ◌/◌, ◌%◌, ◌^◌, ◌<◌, ◌≡◌, ◌≢◌, refl, sym, ap, ◌∙◌, some, List, ◌++◌, arith, length,
  take, drop, ltb, true, false, append_assoc, ne→==, length-append,
}
use native.Mathlib.Nat.{div-add-mod'}
use bctoolbox.Common.Int.{pos, ltb_ℤ}
use bctoolbox.Common.Slices.{drop_exactly, take-append-drop}
use bctoolbox.Vfs.{Bytes, File, Methods}
use bctoolbox.Vfs.Open.{Access, Flags}
use bctoolbox.Vfs.Contents.{Stores, Measures}
use bctoolbox.Vfs.Unpaged.{after_read, after_size, size-unpaged}
use bctoolbox.EncryptedVfs.{
  returns, Modules, Evfs, get_chunk_offset, get_chunk_index, raw_chunk_size, chunk_size_get,
  raw_file_size,
}
use bctoolbox.EncryptedVfs.Header.{base_header, parse_header, recovered_size}
use bctoolbox.EncryptedVfs.HeaderFields.{Fits, length-base_header}
use bctoolbox.EncryptedVfs.Settings.{secret_material_set}
use bctoolbox.EncryptedVfs.Open.{Directory, construct, set_up, check_file, new_object}
use bctoolbox.EncryptedVfs.Blocks.{flat}
use bctoolbox.EncryptedVfs.Contents.{Chunk, raw_of, text_of, AreChunks, IsCipher, Holds}
use bctoolbox.EncryptedVfs.WriteHeader.{
  header_of, module_part, with_header, contents-with_header, body-with_header,
  header_of-with_header, write_header-with_header,
}
use bctoolbox.EncryptedVfs.Parsed.{Reread, IsReadBack, found, parsed, parse_header-recovered}
use bctoolbox.EncryptedVfs.Checked.{checked, keeps-checked, unpaged-checked, check_chunks-passes}
use bctoolbox.EncryptedVfs.Reopened.{alike-AreChunks}
use bctoolbox.EncryptedVfs.Sizes.{recovered_size-text}

module _ {E R S : Type 0} (mods : Modules E R) (m : Methods S) (contents : S → Bytes)
    (stores : Stores m contents) (measures : Measures m contents) (e : E) (cipher : IsCipher mods e)
    (secret : Bytes) (readback : IsReadBack mods e secret) (v : Evfs E R S) (xs : List Chunk)
    (holds : Holds mods m contents v e xs) (no_extension : v.header_extension_size ≡ 0) (old : ℕ)
    (fits : Fits mods e (record v { file_size = old })) where
  -- The object when the header was written.
  abbrev stale : Evfs E R S
  stale = record v { file_size = old }

  abbrev base : Bytes
  base = base_header mods stale e

  abbrev h : Bytes
  h = module_part mods m contents stores e cipher stale

  abbrev body : Bytes
  body = flat raw_of xs

  abbrev on_disk : Bytes
  on_disk = base ++ (h ++ body)

  abbrev h_made : mods.get_module_file_header e base ≡ returns h
  h_made = (cipher.module_header base).1

  abbrev h_size : length h ≡ mods.get_module_file_header_size e
  h_size = (cipher.module_header base).2

  size-on_disk : length on_disk ≡ get_chunk_offset mods v e 0 + length body
  unfolding get_chunk_offset
  size-on_disk = omega (
    arith,
    length-append base (h ++ body),
    length-append h body,
    length-base_header mods e stale,
    h_size,
  )

  abbrev module_again : (g : R) → Reread mods e secret base h g
  module_again g = readback.read_back base h g h_made

  module _ (dir : Directory S) (flags : Flags) (name : Bytes) (access : Access) (g : R) (f : File S)
      (unpaged : f.f_size ≡ 0) (there : contents f.disk ≡ on_disk) (small : length on_disk < 2 ^ 64)
      (other : raw_file_size mods stale e ≢ length on_disk)
      (odd : v.file_size % v.chunk_size ≢ 0) where
    abbrev w : Evfs E R S
    w = new_object f name access g

    abbrev r : Reread mods e secret base h g
    r = module_again g

    -- The object where the magic number was found, and where the fields and the module are read.
    abbrev magic : Evfs E R S
    magic =
        found mods m contents stores measures base
          (record w { file_std = after_size m contents measures f })

    abbrev fields : Evfs E R S
    fields =
        parsed mods m contents stores measures e secret readback stale fits no_extension holds.chunk
          h h_made h_size magic

    abbrev sized : Evfs E R S
    sized = record fields { integrity_full_check = true; file_size = length (flat text_of xs) }

    recovered-text :
        recovered_size mods (length on_disk % 2 ^ 64) r.again fields ≡ length (flat text_of xs)
    unfolding recovered_size raw_chunk_size get_chunk_offset new_object
    recovered-text =
        let fit : length on_disk % 2 ^ 64 ≡ length on_disk = omega arith in
        let place : length on_disk ≡ get_chunk_offset mods fields e 0 + length body =
          omega (arith, size-on_disk) in
        rw (fit, r.chunk_header, r.file_header)
          (recovered_size-text mods fields e xs holds.chunk holds.chunks holds.blocks
            (length on_disk) place small)

    parse_header-sized :
        parse_header mods m (record w { file_std = after_size m contents measures f })
        ≡ (returns tt, sized)
    unfolding new_object
    parse_header-sized =
        let fit : length on_disk % 2 ^ 64 ≡ length on_disk = omega arith in
        parse_header-recovered mods m contents stores measures e secret readback stale fits
          no_extension holds.chunk h h_made h_size
          (record w { file_std = after_size m contents measures f }) body unpaged
          (measures.keeps_size f.disk ∙ there) (rw fit other)
        ∙ ap (λ n. (returns tt, record fields { integrity_full_check = true; file_size = n }))
            recovered-text

    -- The object with its secret, behind the check of the chunks, and with its new header.
    abbrev secured : Evfs E R S
    secured = record sized { encryption = some r.keyed }

    keyed_chunks : AreChunks mods r.keyed 0 xs
    keyed_chunks = alike-AreChunks mods e r.keyed r.keyed_chunk_header r.decrypts 0 xs holds.chunks

    abbrev last_index : ℕ
    last_index = length (flat text_of xs) / v.chunk_size % 2 ^ 32

    abbrev verified : Evfs E R S
    verified = record secured {
      file_std =
          checked mods m contents stores r.keyed secured xs keyed_chunks holds.blocks last_index
            secured.file_std;
    }

    abbrev rewritten : Evfs E R S
    rewritten = with_header mods m contents stores r.keyed r.cipher verified

    contents-secured : contents secured.file_std.disk ≡ on_disk
    unfolding new_object
    contents-secured =
        let size = after_size m contents measures f in
        let twice = after_size m contents measures size in
        let first = after_read m contents stores twice 29 0 in
        stores.keeps first.disk (mods.get_module_file_header_size e) 29
        ∙ stores.keeps twice.disk 29 0
        ∙ measures.keeps_size size.disk
        ∙ measures.keeps_size f.disk
        ∙ there

    body-secured :
        drop (get_chunk_offset mods secured r.keyed 0) (contents secured.file_std.disk) ≡ body
    unfolding new_object get_chunk_offset
    body-secured =
        let front : length (base ++ h) ≡ get_chunk_offset mods secured r.keyed 0 = omega (
          arith,
          length-append base h,
          length-base_header mods e stale,
          h_size,
          r.keyed_file_header,
        ) in
        ap (drop (get_chunk_offset mods secured r.keyed 0))
          (contents-secured ∙ sym (append_assoc base h body))
        ∙ drop_exactly (get_chunk_offset mods secured r.keyed 0) (base ++ h) body front

    unpaged-verified : verified.file_std.f_size ≡ 0
    unfolding new_object
    unpaged-verified =
        unpaged-checked mods m contents stores r.keyed secured xs keyed_chunks holds.blocks
          last_index secured.file_std
        ∙ unpaged

    set_up-rewritten : set_up mods m dir flags false r.keyed secured ≡ (returns tt, rewritten)
    unfolding set_up check_file chunk_size_get get_chunk_index new_object
    set_up-rewritten =
        let c = v.chunk_size in
        let n = length (flat text_of xs) in
        let chunk = ne→== c 0 (λ z. omega (arith, holds.chunk)) in
        let some_rest : n % c ≢ 0 = rw holds.size at odd in
        let some_text : ltb 0 n ≡ true = ground (arith, div-add-mod' n c) in
        let inside : last_index * c < n = grind (arith, div-add-mod' n c) in
        let passes =
          check_chunks-passes mods m contents stores r.keyed secured xs keyed_chunks holds.blocks
            last_index secured.file_std inside unpaged body-secured in
        rw
          (
            chunk,
            some_text,
            r.passes,
            passes,
            write_header-with_header mods m contents stores r.keyed r.cipher verified refl
                unpaged-verified,
          )
          refl

    construct-run :
        construct mods m dir (some (secret_material_set mods secret)) flags w
        ≡ (returns tt, rewritten)
    unfolding construct secret_material_set new_object
    construct-run =
        let some_size : ltb_ℤ (pos 0) (pos (length on_disk)) ≡ true =
          ground (arith, length-append base (h ++ body), length-base_header mods e stale) in
        rw
          (size-unpaged m contents measures f unpaged, there, some_size, parse_header-sized, r.keys)
          (rw (size-unpaged m contents measures f unpaged, there, some_size) set_up-rewritten)

    body-verified :
        drop (get_chunk_offset mods verified r.keyed 0) (contents verified.file_std.disk) ≡ body
    unfolding get_chunk_offset
    body-verified =
        ap (drop (get_chunk_offset mods secured r.keyed 0)) (
          keeps-checked mods m contents stores r.keyed secured xs keyed_chunks holds.blocks
            last_index secured.file_std)
        ∙ body-secured

    rewritten-Holds : Holds mods m contents rewritten r.keyed xs
    unfolding get_chunk_offset
    rewritten-Holds = record {
      encrypted = refl;
      chunk = holds.chunk;
      size = refl;
      number = holds.number;
      chunks = keyed_chunks;
      blocks = holds.blocks;
      unpaged = unpaged-verified;
      body = body-with_header mods m contents stores r.keyed r.cipher verified refl ∙ body-verified;
    }

    contents-rewritten :
        contents rewritten.file_std.disk
        ≡ header_of mods m contents stores r.keyed r.cipher rewritten ++ body
    contents-rewritten =
        contents-with_header mods m contents stores r.keyed r.cipher verified refl
        ∙ ap (λ s. header_of mods m contents stores r.keyed r.cipher verified ++ s) body-verified
        ∙ ap (λ s. s ++ body)
            (sym (header_of-with_header mods m contents stores r.keyed r.cipher verified))

  -- Over a VFS that stores and that measures a file, with a module that is a cipher and that can be
  -- made again, on a file that holds the chunks of a text, without header extension, whose numbers
  -- fit the header, whose size fits 64 bits, and whose text does not end with a full chunk, while its
  -- header is that of an older size, which does not match it: the constructor, whose callback sets
  -- the same secret, returns, its object holds the same chunks, with a module
  -- that is a cipher, and the file has the header of the right size in front of them.
  pub construct-stale :
      (dir : Directory S) (flags : Flags) (name : Bytes) (access : Access) (g : R) (f : File S)
      → f.f_size ≡ 0
      → contents f.disk ≡ contents v.file_std.disk
      → length (contents f.disk) < 2 ^ 64
      → take (get_chunk_offset mods v e 0) (contents f.disk)
        ≡ header_of mods m contents stores e cipher stale
      → raw_file_size mods stale e ≢ length (contents f.disk)
      → v.file_size % v.chunk_size ≢ 0
      → let run =
          construct mods m dir
            (some (secret_material_set mods secret))
            flags
            (new_object f name access g) in
        (run.0 ≡ returns tt)
        × ((e' : E) × (cipher' : IsCipher mods e') × Holds mods m contents run.1 e' xs
            × (contents run.1.file_std.disk
                ≡ header_of mods m contents stores e' cipher' run.1 ++ flat raw_of xs))
  construct-stale dir flags name access g f unpaged same small header other odd =
      let place = get_chunk_offset mods v e 0 in
      let there : contents f.disk ≡ on_disk =
        sym (take-append-drop place (contents f.disk))
        ∙ ap (λ s. s ++ drop place (contents f.disk)) header
        ∙ ap (λ s. header_of mods m contents stores e cipher stale ++ s)
            (ap (drop place) same ∙ holds.body)
        ∙ append_assoc base h body in
      let small' = rw there at small in
      let other' = rw there at other in
      rw (construct-run dir flags name access g f unpaged there small' other' odd) (
        refl,
        (
          (module_again g).keyed,
          (module_again g).cipher,
          rewritten-Holds dir flags name access g f unpaged there small' other' odd,
          contents-rewritten dir flags name access g f unpaged there small' other' odd,
        ),
      )
