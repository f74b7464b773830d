-- ===== src/EncryptedVfs/Open.antt =====
-- src/vfs/vfs_encrypted.cc, continued: the constructor of `VfsEncryption`.
use bctoolbox.Common.{
  ℕ, zero, suc, ◌+◌, ◌%◌, ◌^◌, Bool, false, not, Option, none, some, [], length, ltb, if◌then◌else◌,
}
use bctoolbox.Common.Int.{ℤ, pos, is_neg, ltb_ℤ, ◌==ℤ◌}
use bctoolbox.Vfs
use bctoolbox.Vfs.{Bytes, File, Methods, error}
use bctoolbox.Vfs.Open.{Access, Flags, fresh_file}
use bctoolbox.EncryptedVfs.{
  evfs, no_fuel, Modules, Evfs, Run, pure, throw, lift, on_file, randomly, ◌>>=◌, ◌>>◌, get, modify,
  get_chunk_index, get_chunk_offset, raw_chunk_size, chunk_size_get,
}
use bctoolbox.EncryptedVfs.Header.{make_header, write_header, parse_header}

-- The directory: a new file that stands for the name with .evfs_tmp behind it, if it can be opened;
-- and that file, moved to the name once the one there is removed, and opened with the given flags.
pub record Directory (S : Type 0) : Type 0 where
  pub temporary : (name : Bytes) → Option S
  pub move_to : (name : Bytes) → S → Flags → S

abbrev pub opened_new : {S : Type 0} → Option S → Option (File S)
opened_new none = none
opened_new (some d) = some (fresh_file d)

-- A write to a file that may be NULL.
abbrev pub write_to : {S : Type 0} → Methods S → Bytes → ℕ → Option (File S) → ℤ × Option (File S)
write_to m buf offset none = (error, none)
write_to m buf offset (some f) = let (ret, g) = Vfs.write m buf (pos offset) f in (ret, some g)

module _ {E R S : Type 0} (mods : Modules E R) (m : Methods S) where
  -- Each piece of the plain file is encrypted and written to the temporary one. A read that gives
  -- nothing before the end would be repeated for ever.
  unfoldable pub migrate_loop :
      (fuel : ℕ) → E → (offset index : ℕ) → Option (File S) → Run E R S (Option (File S))
  migrate_loop zero e offset index tmp = throw no_fuel
  migrate_loop (suc k) e offset index tmp = do
    v ← get
    (ret, text) ← on_file (Vfs.read m v.chunk_size (pos offset))
    if is_neg ret then throw evfs else do
      raw ← randomly (mods.encrypt_chunk e index text)
      let (written, tmp') = write_to m raw (get_chunk_offset mods v e index) tmp
      if written ==ℤ pos (length raw)
          then if ltb (offset + length text) v.file_size
            then migrate_loop k e (offset + length text) ((index + 1) % 2 ^ 32) tmp'
            else pure tmp'
          else throw evfs

  -- Both files are closed, and the temporary one takes the place of the other.
  unfoldable pub replace_file : Directory S → Flags → Option (File S) → Run E R S (Unit {0})
  replace_file dir flags none = throw evfs
  replace_file dir flags (some tmp) = do
    on_file (Vfs.close m)
    modify (λ v. record v {
      encrypt_existing_plain_file = false;
      file_std = fresh_file (dir.move_to v.filename (Vfs.close m tmp).1.disk flags);
    })

  unfoldable pub migrate : Directory S → Flags → E → Run E R S (Unit {0})
  migrate dir flags e = do
    v ← get
    tmp ← migrate_loop (suc v.file_size) e 0 0 (opened_new (dir.temporary v.filename))
    header ← make_header mods
    let (ret, tmp') = write_to m header 0 tmp
    if ret ==ℤ pos (length header) then replace_file dir flags tmp' else throw evfs

  -- The chunks from the given one down to number 1.
  unfoldable pub check_chunks : E → (index : ℕ) → Run E R S (Unit {0})
  check_chunks e zero = pure tt
  check_chunks e (suc k) = do
    v ← get
    (ret, raw) ←
        on_file (Vfs.read m (raw_chunk_size mods v e) (pos (get_chunk_offset mods v e (suc k))))
    if is_neg ret then throw evfs else do lift (mods.decrypt_chunk e (suc k) raw); check_chunks e k

  -- The header, and the chunks where the size in the header was not that of the file.
  unfoldable pub check_file : E → Run E R S (Unit {0})
  check_file e = do
    v ← get
    intact ← lift (mods.check_integrity e v.r_header)
    if not intact
        then throw evfs
        else if v.integrity_full_check
        then (do check_chunks e (get_chunk_index v v.file_size); write_header mods m)
        else pure tt

  -- Behind the callback, for a file that is or is to be encrypted.
  unfoldable pub set_up : Directory S → Flags → (create_file : Bool) → E → Run E R S (Unit {0})
  set_up dir flags create_file e = do
    modify (λ v. record v { chunk_size = chunk_size_get v })
    v ← get
    if v.encrypt_existing_plain_file
        then migrate dir flags e
        else if ltb 0 v.file_size
        then check_file e
        else pure tt
    if create_file then write_header mods m else pure tt

  unfoldable pub construct :
      Directory S → (callback : Option (Run E R S (Unit {0}))) → Flags → Run E R S (Unit {0})
  construct dir callback flags = do
    size ← on_file (Vfs.size m)
    if ltb_ℤ (pos 0) size then parse_header mods m else pure tt
    elim callback [
      | none ↦ throw evfs
      | some settings ↦ (do
        settings
        v ← get
        elim v.encryption [
          | none ↦ pure tt
          | some e ↦ set_up dir flags (not (ltb_ℤ (pos 0) size)) e
        ])
    ]

-- The object before the constructor's body.
unfoldable pub new_object : {E R S : Type 0} → File S → Bytes → Access → R → Evfs E R S
new_object file name access g = record {
  version_number = 0x0100;
  chunk_size = 0;
  encryption = none;
  header_extension_size = 0;
  filename = name;
  file_size = 0;
  r_header = [];
  encrypt_existing_plain_file = false;
  integrity_full_check = false;
  access_mode = access;
  file_std = file;
  rng = g;
}
