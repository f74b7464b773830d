-- ===== src/EncryptedVfs/Plain.antt =====
-- The constructor of src/vfs/vfs_encrypted.cc on a plain file that is to be encrypted.
use bctoolbox.Common.{
  ◌-◌, ◌/◌, ◌%◌, ◌^◌, ◌<◌, ◌≡◌, refl, ap, ◌∙◌, some, none, false, true, List, arith, length, take,
  ◌++◌, ltb, Bool-cases, inl, inr, length-take, ne→==,
}
use bctoolbox.Common.Int.{pos, ltb_ℤ}
use bctoolbox.Common.Slices.{take-take}
use bctoolbox.Vfs.{Bytes, File, Methods}
use bctoolbox.Vfs.Open.{Access, Flags}
use bctoolbox.Vfs.Contents.{Stores, Measures}
use bctoolbox.Vfs.Unpaged.{after_read, after_size, size-unpaged}
use bctoolbox.EncryptedVfs.{returns, Suite, plain, Modules, Evfs, Run, ◌>>◌, chunk_size_get}
use bctoolbox.EncryptedVfs.Header.{parse_header, equal, magic_number}
use bctoolbox.EncryptedVfs.Settings.{
  same_suite, is_rdonly, encryption_suite_set, encryption_suite_get, secret_material_set,
}
use bctoolbox.EncryptedVfs.Open.{Directory, construct, set_up, migrate, new_object}
use bctoolbox.EncryptedVfs.Blocks.{flat}
use bctoolbox.EncryptedVfs.WriteHeader.{header_of}
use bctoolbox.EncryptedVfs.Contents.{Chunk, raw_of, text_of, IsCipher, Holds}
use bctoolbox.EncryptedVfs.Parsed.{read_exactly-there}
use bctoolbox.EncryptedVfs.Migrated.{Replaces, migrate-Holds}

-- A file that does not begin with the magic number, or is shorter than a header.
abbrev pub IsPlain : Bytes → Type 0
IsPlain text =
    ltb (length text) 29 ≡ false → equal (take (length magic_number) text) magic_number ≡ false

module _ {E R S : Type 0} (mods : Modules E R) (m : Methods S) (contents : S → Bytes)
    (stores : Stores m contents) (measures : Measures m contents) (text : Bytes)
    (small : length text < 2 ^ 64) (is_plain : IsPlain text) where
  -- The object where the header was looked for.
  abbrev pub looked_at : Evfs E R S → Bytes → File S → Evfs E R S
  looked_at w header f = record w {
    file_size = length text;
    encryption = none;
    r_header = header;
    file_std = f;
  }

  pub parse_header-plain :
      (w : Evfs E R S)
      → w.file_std.f_size ≡ 0
      → contents w.file_std.disk ≡ text
      → (header : Bytes) × (f : File S) × (parse_header mods m w
          ≡ (returns tt, looked_at w header f))
        × (f.f_size ≡ 0)
        × (contents f.disk ≡ text)
  unfolding parse_header
  parse_header-plain w unpaged there =
      let sized = after_size m contents measures w.file_std in
      let size =
        size-unpaged m contents measures w.file_std unpaged
        ∙ ap (λ s. (pos (length s), sized)) there in
      let kept = measures.keeps_size w.file_std.disk ∙ there in
      let fits : length text % 2 ^ 64 ≡ length text = omega arith in
      elim (Bool-cases (ltb (length text) 29)) [
        | inl short ↦
            let test : ltb_ℤ (pos (length text)) (pos 29) ≡ true = ground arith in
            (w.r_header, sized, rw (size, test, fits) refl, unpaged, kept)
        | inr long ↦
            let test : ltb_ℤ (pos (length text)) (pos 29) ≡ false = ground arith in
            let first =
              read_exactly-there mods m contents stores measures (record w { file_std = sized }) 29
                0 (take 29 text) unpaged (ap (take 29) kept)
                (ground (arith, length-take 29 text)) in
            let no_magic =
              ap (λ s. equal s magic_number) (take-take 13 29 text (omega arith)) ∙ is_plain long in
            (
              take 29 text,
              after_read m contents stores sized 29 0,
              rw (size, test, first, no_magic, fits) refl,
              unpaged,
              stores.keeps sized.disk 29 0 ∙ kept,
            )
      ]

-- What the callback sets.
abbrev pub settings : {E R S : Type 0} → Modules E R → Suite → Bytes → Run E R S (Unit {0})
settings mods suite secret = encryption_suite_set mods suite >> secret_material_set mods secret

-- The suite is one that a module is made of, and the module takes the secret.
pub record IsMade {E R : Type 0} (mods : Modules E R) (suite : Suite) (secret : Bytes) (g : R)
    (e : E) : Type 0 where
  pub encrypts : same_suite plain suite ≡ false
  pub bare : E
  pub drawn : R
  pub makes : mods.make suite g ≡ (returns (some bare), drawn)
  pub keys : mods.set_module_secret_material secret bare ≡ returns e

module _ {E R S : Type 0} (mods : Modules E R) (m : Methods S) (contents : S → Bytes)
    (stores : Stores m contents) (measures : Measures m contents) (text : Bytes)
    (small : length text < 2 ^ 64) (is_plain : IsPlain text) (suite : Suite) (secret : Bytes)
    (e : E) (g : R) (made : IsMade mods suite secret g e) (name : Bytes) (access : Access)
    (writes : is_rdonly access ≡ false) (some_text : 0 < length text) (f0 : File S) where
  -- The object behind the header, behind the callback, and where the migration begins.
  abbrev plain_object : Bytes → File S → Evfs E R S
  plain_object header f =
      looked_at mods m contents stores measures text small is_plain (new_object f0 name access g)
        header f

  abbrev set_object : Bytes → File S → Evfs E R S
  set_object header f = record (plain_object header f) {
    encryption = some e;
    encrypt_existing_plain_file = true;
    rng = made.drawn;
  }

  settings-set_object :
      (header : Bytes) (f : File S)
      → settings mods suite secret (plain_object header f) ≡ (returns tt, set_object header f)
  unfolding encryption_suite_set encryption_suite_get secret_material_set new_object
  settings-set_object header f =
      let not_empty = ne→== (length text) 0 (λ z. omega arith) in
      let more : ltb 0 (length text) ≡ true = ground arith in
      rw (not_empty, more, made.encrypts, writes, made.makes, made.keys) refl

  module _ (dir : Directory S) (flags : Flags) (replaces : Replaces m contents dir name)
      (cipher : IsCipher mods e) (unpaged : f0.f_size ≡ 0) (there : contents f0.disk ≡ text)
      (in_range : length text / 4096 < 2 ^ 32 - 1) where
    abbrev w : Evfs E R S
    w = new_object f0 name access g

    abbrev migrating : Bytes → File S → Evfs E R S
    migrating header f = record (set_object header f) { chunk_size = 4096 }

    abbrev sized : Evfs E R S
    sized = record w { file_std = after_size m contents measures f0 }

    looking :
        (header : Bytes) × (f : File S) × (parse_header mods m sized
          ≡ (returns tt, plain_object header f))
        × (f.f_size ≡ 0)
        × (contents f.disk ≡ text)
    looking =
        parse_header-plain mods m contents stores measures text small is_plain sized unpaged
          (measures.keeps_size f0.disk ∙ there)

    abbrev start : Evfs E R S
    start = migrating looking.0 looking.1

    migration :
        let run = migrate mods m dir flags e start in
        (run.0 ≡ returns tt)
        × ((ys : List Chunk) × Holds mods m contents run.1 e ys
            × (flat text_of ys ≡ text)
            × (contents run.1.file_std.disk
                ≡ header_of mods m contents stores e cipher run.1 ++ flat raw_of ys)
            × (run.1.chunk_size ≡ 4096))
        × (run.1.encrypt_existing_plain_file ≡ false)
    unfolding new_object
    migration =
        migrate-Holds mods m contents stores e cipher dir flags start replaces text refl refl
          (omega arith) looking.3 looking.4 refl some_text in_range

    construct-migrate :
        construct mods m dir (some (settings mods suite secret)) flags w
        ≡ (returns tt, (migrate mods m dir flags e start).1)
    unfolding construct set_up chunk_size_get new_object
    construct-migrate =
        let some_size : ltb_ℤ (pos 0) (pos (length text)) ≡ true = ground arith in
        let size =
          size-unpaged m contents measures f0 unpaged
          ∙ ap (λ s. (pos (length s), after_size m contents measures f0)) there in
        let moved : migrate mods m dir flags e start
            ≡ (returns tt, (migrate mods m dir flags e start).1) =
          ap (λ r. (r, (migrate mods m dir flags e start).1)) migration.0 in
        rw (size, some_size, looking.2, settings-set_object looking.0 looking.1, moved)
          (rw (size, some_size) refl)

    -- Over a VFS that stores and that measures a file, and a directory where the temporary file is
    -- new and takes the place of the other: the constructor on a plain file with some bytes that is
    -- opened to be written, with a callback that sets a suite and a secret that make a module which
    -- is a cipher, returns, and the file then is the header of the object and the chunks that hold the
    -- bytes, 4096 in each; their number is below 2^64 and in the range of the chunk numbers.
    pub construct-plain :
        let run = construct mods m dir (some (settings mods suite secret)) flags w in
        (run.0 ≡ returns tt)
        × ((ys : List Chunk) × Holds mods m contents run.1 e ys
            × (flat text_of ys ≡ text)
            × (contents run.1.file_std.disk
                ≡ header_of mods m contents stores e cipher run.1 ++ flat raw_of ys)
            × (run.1.chunk_size ≡ 4096))
    construct-plain = rw construct-migrate (refl, migration.1)
