-- ===== src/EncryptedVfs.antt =====
-- src/vfs/vfs_encrypted.cc: a VFS that keeps each file encrypted, in chunks, in a file of the VFS
-- below. `VfsEncryption` is the record `Evfs`; the encryption modules behind it are reached through
-- the record `Modules`, which Suites provides. Byte fields of a header are below 256; sizes and
-- offsets stay below 2^63. What is logged is left out.
pub mod Header
pub mod Settings
pub mod Read
pub mod Write
pub mod Open
pub mod Io
pub mod Dummy
pub mod Aes
pub mod Suites
pub mod Blocks
pub mod Contents
pub mod Places
pub mod Loops
pub mod Rewritten
pub mod NewChunks
pub mod ChunkAt
pub mod WriteSteps
pub mod WriteHeader
pub mod HeaderFields
pub mod Parsed
pub mod Sizes
pub mod Reopened
pub mod Checked
pub mod Recovered
pub mod Interrupted
pub mod Cut
pub mod CutDown
pub mod CutChunk
pub mod Truncate
pub mod Moved
pub mod Migrated
pub mod Plain
pub mod WriteAt
pub mod WriteText
pub mod Session
pub mod ReadText
use bctoolbox.Common.{ℕ, ◌+◌, ◌-◌, ◌*◌, ◌/◌, ◌%◌, ◌^◌, Bool, Option, none, ◌==◌, if◌then◌else◌}
use bctoolbox.Vfs.{Bytes, File, Op}
use bctoolbox.Vfs.Open.{Access}

-- What a C++ function does: it returns, or throws an `EvfsException` or the `length_error` of a
-- vector that is resized to a negative size. `undefined` is a run whose behaviour the language does
-- not define, and `no_fuel` one whose fuel did not do.
pub data Failure : Type 0 where
  evfs : Failure
  length_error : Failure
  undefined : Failure
  no_fuel : Failure

pub data Result (A : Type 0) : Type 0 where
  returns : A → Result A
  throws : Failure → Result A

-- `EncryptionSuite`
pub data Suite : Type 0 where
  unset : Suite
  dummy : Suite
  aes256gcm128_sha256 : Suite
  plain : Suite

abbrev pub suite_code : Suite → ℕ
suite_code unset = 0
suite_code dummy = 1
suite_code aes256gcm128_sha256 = 2
suite_code plain = 0xFFFF

-- The class `VfsEncryptionModule` and the functions that make its objects: `E` has the objects, `R`
-- the state of the random number generator.
pub record Modules (E R : Type 0) : Type 0 where
  pub module_file_header_size : (suite : ℕ) → ℕ
  pub make : Suite → R → Result (Option E) × R
  pub make_from : (suite : ℕ) → Bytes → R → Result E × R
  pub get_chunk_header_size : E → ℕ
  pub get_module_file_header_size : E → ℕ
  pub get_encryption_suite : E → Suite
  pub get_module_file_header : E → (raw_header : Bytes) → Result Bytes
  pub set_module_secret_material : Bytes → E → Result E
  pub decrypt_chunk : E → (chunk_index : ℕ) → Bytes → Result Bytes
  pub encrypt_chunk : E → (chunk_index : ℕ) → Bytes → R → Result Bytes × R
  pub encrypt_chunk_again : E → (chunk_index : ℕ) → (raw_chunk plain : Bytes) → R → Result Bytes × R
  pub check_integrity : E → (raw_header : Bytes) → Result Bool

-- `VfsEncryption`, with the state of the generator that its module uses.
pub record Evfs (E R S : Type 0) : Type 0 where
  pub version_number : ℕ
  pub chunk_size : ℕ
  pub encryption : Option E
  pub header_extension_size : ℕ
  pub filename : Bytes
  pub file_size : ℕ
  pub r_header : Bytes
  pub encrypt_existing_plain_file : Bool
  pub integrity_full_check : Bool
  pub access_mode : Access
  pub file_std : File S
  pub rng : R

-- A method returns or throws, and leaves the object as it is by then.
abbrev pub Run : (E R S A : Type 0) → Type 0
Run E R S A = Evfs E R S → Result A × Evfs E R S

module _ {E R S A : Type 0} where
  abbrev pub pure : A → Run E R S A
  pure a v = (returns a, v)

  abbrev pub throw : Failure → Run E R S A
  throw x v = (throws x, v)

  abbrev pub lift : Result A → Run E R S A
  lift r v = (r, v)

  -- A call on the file below, and one that draws random numbers.
  abbrev pub on_file : Op S A → Run E R S A
  on_file op v = let (a, f) = op v.file_std in (returns a, record v { file_std = f })

  abbrev pub randomly : (R → Result A × R) → Run E R S A
  randomly draw v = let (r, g) = draw v.rng in (r, record v { rng = g })

abbrev pub and_then : {A B : Type 0} → Result A → (A → Result B) → Result B
and_then (returns a) k = k a
and_then (throws x) k = throws x

module _ {E R S A B : Type 0} where
  abbrev pub then_run : Result A → (A → Run E R S B) → Run E R S B
  then_run (returns a) k v = k a v
  then_run (throws x) k v = (throws x, v)

  infixl 5 ◌>>=◌ ◌>>◌
  abbrev pub ◌>>=◌ : Run E R S A → (A → Run E R S B) → Run E R S B
  (m >>= k) v = let (r, w) = m v in then_run r k w

  abbrev pub ◌>>◌ : Run E R S A → Run E R S B → Run E R S B
  m >> n = m >>= λ _. n

module _ {E R S : Type 0} where
  abbrev pub get : Run E R S (Evfs E R S)
  get v = (returns v, v)

  abbrev pub modify : (Evfs E R S → Evfs E R S) → Run E R S (Unit {0})
  modify f v = (returns tt, f v)

-- `baseFileHeaderSize` and `defaultChunkSize`
abbrev pub base_file_header_size : ℕ
base_file_header_size = 29

abbrev pub default_chunk_size : ℕ
default_chunk_size = 4096

-- The number of chunks that a text of the given size takes, the last of them perhaps not full.
abbrev pub chunk_number : (size chunk : ℕ) → ℕ
chunk_number size chunk = (if size % chunk == 0 then 0 else 1) + size / chunk

-- `a - b` of unsigned 32-bit and 64-bit numbers.
abbrev pub sub32 : ℕ → ℕ → ℕ
sub32 a b = (a + 2 ^ 32 - b) % 2 ^ 32

abbrev pub sub64 : ℕ → ℕ → ℕ
sub64 a b = (a + 2 ^ 64 - b) % 2 ^ 64

module _ {E R S : Type 0} (mods : Modules E R) (v : Evfs E R S) where
  unfoldable pub raw_file_size : E → ℕ
  raw_file_size e =
      (v.file_size
        + chunk_number v.file_size v.chunk_size * mods.get_chunk_header_size e
        + base_file_header_size
        + v.header_extension_size
        + mods.get_module_file_header_size e)
      % 2 ^ 64

  unfoldable pub raw_chunk_size : E → ℕ
  raw_chunk_size e = v.chunk_size + mods.get_chunk_header_size e

  unfoldable pub get_chunk_offset : E → ℕ → ℕ
  unfolding raw_chunk_size
  get_chunk_offset e index =
      raw_chunk_size e * index
      + base_file_header_size
      + v.header_extension_size
      + mods.get_module_file_header_size e

module _ {E R S : Type 0} (v : Evfs E R S) where
  unfoldable pub get_chunk_index : ℕ → ℕ
  get_chunk_index offset = offset / v.chunk_size % 2 ^ 32

  unfoldable pub chunk_size_get : ℕ
  chunk_size_get = if v.chunk_size == 0 then default_chunk_size else v.chunk_size
