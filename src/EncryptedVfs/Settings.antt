-- ===== src/EncryptedVfs/Settings.antt =====
-- src/vfs/vfs_encrypted.cc, continued: what the callback of an open sets.
use bctoolbox.Common.{
  ℕ, ◌%◌, Bool, true, false, ◌&&◌, ◌||◌, Option, none, some, ltb, ◌==◌, if◌then◌else◌,
}
use bctoolbox.Vfs.{Bytes}
use bctoolbox.Vfs.Open.{Access, rdonly, wronly, rdwr}
use bctoolbox.EncryptedVfs.{
  evfs, Suite, unset, plain, suite_code, Modules, Evfs, Run, pure, throw, lift, randomly, ◌>>=◌,
  ◌>>◌, get, modify,
}

abbrev pub is_rdonly : Access → Bool
is_rdonly rdonly = true
is_rdonly wronly = false
is_rdonly rdwr = false

abbrev pub same_suite : Suite → Suite → Bool
same_suite a b = suite_code a == suite_code b

abbrev is_unset : {A : Type 0} → Option A → Bool
is_unset none = true
is_unset (some a) = false

module _ {E R S : Type 0} where
  unfoldable pub chunk_size_set : ℕ → Run E R S (Unit {0})
  chunk_size_set size =
      if ltb size 16 || ltb 1048560 size
      then throw evfs
      else if ltb 0 (size % 16)
      then throw evfs
      else (do
        v ← get
        if v.chunk_size == 0
            then modify (λ v. record v { chunk_size = size })
            else if v.chunk_size == size
            then pure tt
            else throw evfs)

module _ {E R S : Type 0} (mods : Modules E R) where
  unfoldable pub encryption_suite_get : Evfs E R S → Suite
  encryption_suite_get v = elim v.encryption [
    | some e ↦ mods.get_encryption_suite e
    | none ↦ if ltb 0 v.file_size then plain else unset
  ]

  abbrev set_module : Suite → Run E R S (Unit {0})
  set_module suite = do e ← randomly (mods.make suite); modify (λ v. record v { encryption = e })

  -- A plain file is to be encrypted, unless it is opened for reading only.
  abbrev migrate_to : Suite → Run E R S (Unit {0})
  migrate_to suite = do
    v ← get
    if is_rdonly v.access_mode
        then pure tt
        else do modify (λ v. record v { encrypt_existing_plain_file = true }); set_module suite

  unfoldable pub encryption_suite_set : Suite → Run E R S (Unit {0})
  encryption_suite_set suite = do
    v ← get
    if is_unset v.encryption && v.file_size == 0
        then set_module suite
        else if same_suite (encryption_suite_get v) suite
        then pure tt
        else if same_suite (encryption_suite_get v) plain
        then migrate_to suite
        else throw evfs

  unfoldable pub secret_material_set : Bytes → Run E R S (Unit {0})
  secret_material_set secret = do
    v ← get
    elim v.encryption [
      | none ↦ if ltb 0 v.file_size && is_rdonly v.access_mode then pure tt else throw evfs
      | some e ↦ (do
        e' ← lift (mods.set_module_secret_material secret e)
        modify (λ v. record v { encryption = some e' }))
    ]
