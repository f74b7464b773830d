-- ===== src/EncryptedVfs/Migrated.antt =====
-- What the constructor of src/vfs/vfs_encrypted.cc makes of a plain file.
use native.Mathlib.Nat.{lt-div-mul-add}
use bctoolbox.Common.{
  ℕ, suc, ◌+◌, ◌*◌, ◌/◌, ◌-◌, ◌≤◌, ◌^◌, ◌<◌, ◌≡◌, refl, sym, ap, ◌∙◌, some, false, List, [], ◌++◌,
  arith, length, drop, eq→==,
}
use bctoolbox.Common.Slices.{drop-nil}
use bctoolbox.Vfs
use bctoolbox.Vfs.{Bytes, File, Methods}
use bctoolbox.Vfs.Open.{Flags, fresh_file}
use bctoolbox.Vfs.Contents.{Stores}
use bctoolbox.Vfs.Unpaged.{after_write, write-unpaged, close-unpaged}
use bctoolbox.EncryptedVfs.{returns, Modules, Evfs, get_chunk_offset}
use bctoolbox.EncryptedVfs.Header.{base_header}
use bctoolbox.EncryptedVfs.Blocks.{flat}
use bctoolbox.EncryptedVfs.Contents.{Chunk, raw_of, text_of, IsCipher, Holds, number_lt}
use bctoolbox.EncryptedVfs.NewChunks.{at_most}
use bctoolbox.EncryptedVfs.WriteHeader.{
  header_of, make_header-header_of, contents-with_header, body-with_header,
}
use bctoolbox.EncryptedVfs.Moved.{Moves, with_both, migrate_loop-Moves}
use bctoolbox.EncryptedVfs.Open.{Directory, migrate_loop, migrate, replace_file}

module _ {S : Type 0} (m : Methods S) (contents : S → Bytes) where
  -- The temporary file is a new one, and takes the place of the file with what it holds once it is
  -- closed.
  pub record Replaces (dir : Directory S) (name : Bytes) : Type 0 where
    pub temporary : S
    pub opens : dir.temporary name ≡ some temporary
    pub empty : contents temporary ≡ []
    pub closes : (d : S) → contents (m.close_file d).1 ≡ contents d
    pub moves : (d : S) (flags : Flags) → contents (dir.move_to name d flags) ≡ contents d

module _ {E R S : Type 0} (mods : Modules E R) (m : Methods S) (contents : S → Bytes)
    (stores : Stores m contents) (e : E) (cipher : IsCipher mods e) (dir : Directory S)
    (flags : Flags) (v : Evfs E R S) (replaces : Replaces m contents dir v.filename) (text : Bytes)
    (known : v.encryption ≡ some e) (no_extension : v.header_extension_size ≡ 0)
    (chunk : 0 < v.chunk_size) (unpaged : v.file_std.f_size ≡ 0)
    (plain : contents v.file_std.disk ≡ text) (size : v.file_size ≡ length text)
    (some_text : 0 < length text) (in_range : length text / v.chunk_size < 2 ^ 32 - 1) where
  abbrev n : ℕ
  n = length text / v.chunk_size + 1

  abbrev tmp : File S
  tmp = fresh_file replaces.temporary

  enough : length text ≤ 0 + n * v.chunk_size
  enough =
      let count : n * v.chunk_size ≡ length text / v.chunk_size * v.chunk_size + v.chunk_size =
        grind arith in
      omega (arith, count, lt-div-mul-add {a = length text} chunk)

  nothing_yet : drop (get_chunk_offset mods v e 0) (contents tmp.disk) ≡ []
  nothing_yet =
      let first = get_chunk_offset mods v e 0 in ap (drop first) replaces.empty ∙ drop-nil first

  pub moving :
      Moves mods m contents stores e cipher v text size chunk
        (migrate_loop mods m (suc v.file_size) e 0 0 (some tmp) v)
        0
        text
        tmp
  moving =
      migrate_loop-Moves mods m contents stores e cipher v text size chunk n (suc v.file_size) 0 0
        v.file_std v.rng tmp unpaged plain refl (ap length nothing_yet ∙ omega arith) (omega arith)
        some_text (omega (arith, size)) enough (omega arith)

  abbrev pub moved : File S
  moved = moving.moved

  -- The object that the header is made of, over the new file.
  abbrev pub at_end : Evfs E R S
  at_end =
      record (with_both mods m contents stores e cipher v text size chunk moving.plain
        moving.generator) { file_std = moved }

  abbrev pub header : Bytes
  header = header_of mods m contents stores e cipher at_end

  abbrev pub written : File S
  written = after_write m contents stores moved header 0

  abbrev pub migrated : Evfs E R S
  migrated = record v {
    r_header = base_header mods at_end e;
    encrypt_existing_plain_file = false;
    file_std = fresh_file (dir.move_to v.filename (Vfs.close m written).1.disk flags);
    rng = moving.generator;
  }

  migrate-migrated : migrate mods m dir flags e v ≡ (returns tt, migrated)
  unfolding migrate replace_file base_header
  migrate-migrated =
      let w =
        with_both mods m contents stores e cipher v text size chunk moving.plain moving.generator in
      rw
        (
          replaces.opens,
          moving.done,
          make_header-header_of mods m contents stores e cipher w known,
          write-unpaged m contents stores moved header 0 moving.unpaged,
          eq→== (length header) (length header) refl,
        )
        refl

  migrated-Holds : Holds mods m contents migrated e moving.chunks
  unfolding get_chunk_offset
  migrated-Holds = record {
    encrypted = known;
    chunk = chunk;
    size = size ∙ ap length (sym moving.is_cut.cut);
    number = omega (
      arith,
      at_most (length moving.chunks) n v.chunk_size (
          omega (
            arith,
            enough,
            ap length moving.is_cut.cut,
            number_lt mods e v.chunk_size 0 moving.chunks chunk moving.is_cut.chunks
                moving.is_cut.blocks,
          )),
    );
    chunks = moving.is_cut.chunks;
    blocks = moving.is_cut.blocks;
    unpaged = refl;
    body =
        let first = get_chunk_offset mods v e 0 in
        ap (drop first) (
          replaces.moves (Vfs.close m written).1.disk flags
          ∙ ap contents (close-unpaged m written moving.unpaged)
          ∙ replaces.closes written.disk)
        ∙ body-with_header mods m contents stores e cipher at_end no_extension
        ∙ moving.body
        ∙ ap (λ s. s ++ flat raw_of moving.chunks) nothing_yet;
  }

  migrated-file :
      contents migrated.file_std.disk
      ≡ header_of mods m contents stores e cipher migrated ++ flat raw_of moving.chunks
  unfolding get_chunk_offset base_header
  migrated-file =
      replaces.moves (Vfs.close m written).1.disk flags
      ∙ ap contents (close-unpaged m written moving.unpaged)
      ∙ replaces.closes written.disk
      ∙ contents-with_header mods m contents stores e cipher at_end no_extension
      ∙ ap (λ s. header ++ s) (moving.body ∙ ap (λ s. s ++ flat raw_of moving.chunks) nothing_yet)

  -- The text of the plain file is that of the encrypted one that takes its place, which is the header
  -- of the object and the chunks.
  pub migrate-Holds :
      let run = migrate mods m dir flags e v in
      (run.0 ≡ returns tt)
      × ((ys : List Chunk) × Holds mods m contents run.1 e ys
          × (flat text_of ys ≡ text)
          × (contents run.1.file_std.disk
              ≡ header_of mods m contents stores e cipher run.1 ++ flat raw_of ys)
          × (run.1.chunk_size ≡ v.chunk_size))
      × (run.1.encrypt_existing_plain_file ≡ false)
  migrate-Holds =
      rw migrate-migrated
        (refl, (moving.chunks, migrated-Holds, moving.is_cut.cut, migrated-file, refl), refl)
