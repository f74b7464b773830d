-- ===== src/EncryptedVfs/Io.antt =====
-- src/vfs/vfs_encrypted.cc, continued: the functions behind the methods of the VFS. The handle is
-- `pUserData`. An exception that is not caught goes on to the caller, a C function.
use bctoolbox.Common.{ℕ, Bool, false, not, Option, none, some, [], length}
use bctoolbox.Common.Int.{ℤ, pos, negsuc}
use bctoolbox.Vfs
use bctoolbox.Vfs.{Bytes, File, Methods, ok, error}
use bctoolbox.Vfs.Open.{Access, wronly, rdonly, rdwr, Flags, OpenFunc, open2}
use bctoolbox.EncryptedVfs.{evfs, Result, returns, throws, Modules, Evfs, Run, pure, ◌>>=◌, plain}
use bctoolbox.EncryptedVfs.Settings.{same_suite, encryption_suite_get}
use bctoolbox.EncryptedVfs.Read.{read}
use bctoolbox.EncryptedVfs.Write.{write, truncate}
use bctoolbox.EncryptedVfs.Open.{Directory, construct, new_object}

-- What a handler of `EvfsException` makes of a run: an error, where it was one of those.
abbrev pub catch_evfs : {A : Type 0} → A → Result A → Result A
catch_evfs other (throws evfs) = returns other
catch_evfs other r = r

abbrev pub writable : Access → Access
writable wronly = rdwr
writable rdonly = rdonly
writable rdwr = rdwr

module _ {E R S : Type 0} (mods : Modules E R) (m : Methods S) where
  abbrev pub Handle : Type 0
  Handle = Option (Evfs E R S)

  -- The destructor closes the file below, whatever that gives.
  unfoldable pub bc_close : Handle → ℤ × Option (File S)
  bc_close none = (ok, none)
  bc_close (some v) = let (_, f) = Vfs.close m v.file_std in (ok, some f)

  unfoldable pub bc_sync : Handle → ℤ × Handle
  bc_sync none = (error, none)
  bc_sync (some v) = let (ret, f) = Vfs.sync m v.file_std in (ret, some (record v { file_std = f }))

  abbrev bytes_read : Bytes → Run E R S (ℤ × Bytes)
  bytes_read bytes = pure (pos (length bytes), bytes)

  unfoldable pub bc_read : Handle → (count offset : ℕ) → Result (ℤ × Bytes) × Handle
  bc_read none count offset = (returns (error, []), none)
  bc_read (some v) count offset =
      let (r, w) = (read mods m offset count >>= bytes_read) v in (catch_evfs (error, []) r, some w)

  unfoldable pub bc_write : Handle → Bytes → (offset : ℤ) → Result ℤ × Handle
  bc_write h buf (negsuc n) = (returns error, h)
  bc_write none buf (pos n) = (returns error, none)
  bc_write (some v) buf (pos n) =
      let (r, w) = (write mods m buf n >>= λ count. pure (pos count)) v in (r, some w)

  unfoldable pub bc_file_size : Handle → ℤ × Handle
  bc_file_size none = (error, none)
  bc_file_size (some v) = elim v.encryption [
    | none ↦ let (ret, f) = Vfs.size m v.file_std in (ret, some (record v { file_std = f }))
    | some e ↦ (pos v.file_size, some v)
  ]

  unfoldable pub bc_truncate : Handle → (new_size : ℤ) → Result ℤ × Handle
  bc_truncate h (negsuc n) = (returns error, h)
  bc_truncate none (pos n) = (returns error, none)
  bc_truncate (some v) (pos n) =
      let (r, w) = (truncate mods m n >>= λ _. pure (pos 0)) v in (r, some w)

  unfoldable pub bc_is_encrypted : Handle → Bool
  bc_is_encrypted none = false
  bc_is_encrypted (some v) = not (same_suite (encryption_suite_get mods v) plain)

  -- The handle where the run returned `BCTBX_VFS_OK`, and `none` where it returned an error. The
  -- file that is then closed is not looked at again.
  abbrev opened : Result (Unit {0}) × Evfs E R S → Result Handle
  opened (returns tt, v) = returns (some v)
  opened (throws x, v) = catch_evfs none (throws x)

  unfoldable pub bc_open :
      OpenFunc S
      → Directory S
      → (callback : Option (Run E R S (Unit {0}))) → R
      → (name : Bytes) → Flags
      → Result Handle
  bc_open open_func dir callback g name flags =
      let wider = record flags { access = writable flags.access } in
      elim (open2 (some open_func) name wider) [
        | none ↦ returns none
        | some file ↦
            opened (construct mods m dir callback wider (new_object file name flags.access g))
      ]
