-- ===== src/EncryptedVfs/Suites.antt =====
-- The encryption modules of src/vfs/vfs_encrypted.cc: the functions that make them, and the class
-- that they derive from.
pub mod Ciphers
pub mod ReadBack
use bctoolbox.Common.{ℕ, Bool, Option, none, some, ◌==◌, if◌then◌else◌}
use bctoolbox.Vfs.{Bytes}
use bctoolbox.EncryptedVfs.{
  evfs, Result, returns, throws, and_then, Suite, unset, dummy, aes256gcm128_sha256, plain, Modules,
}
use bctoolbox.EncryptedVfs.Dummy
use bctoolbox.EncryptedVfs.Dummy.{Dummy, Hmac}
use bctoolbox.EncryptedVfs.Aes
use bctoolbox.EncryptedVfs.Aes.{Aes, Primitives}

-- An object of one of the two classes.
pub data Module : Type 0 where
  of_dummy : Dummy → Module
  of_aes : Aes → Module

abbrev as_dummy : Result Dummy → Result Module
as_dummy r = and_then r λ d. returns (of_dummy d)

abbrev as_aes : Result Aes → Result Module
as_aes r = and_then r λ a. returns (of_aes a)

-- `moduleFileHeaderSize` of a suite as it stands in a header.
unfoldable pub module_file_header_size : (suite : ℕ) → ℕ
module_file_header_size suite =
    if suite == 1 then Dummy.file_header_size else if suite == 2 then Aes.file_header_size else 0

-- `make_VfsEncryptionModule`, of a suite and of the suite and the data in a header.
unfoldable pub make_module : {R : Type 0} → Primitives R → Suite → R → Result (Option Module) × R
make_module p unset g = (throws evfs, g)
make_module p dummy g = (returns (some (of_dummy Dummy.new_dummy)), g)
make_module p aes256gcm128_sha256 g =
    let (a, g') = Aes.new_aes p g in (returns (some (of_aes a)), g')
make_module p plain g = (returns none, g)

unfoldable pub parse_module : (suite : ℕ) → Bytes → Result Module
parse_module suite header =
    if suite == 1
    then as_dummy (Dummy.parse_dummy header)
    else if suite == 2
    then as_aes (Aes.parse_aes header)
    else throws evfs

module _ {R : Type 0} (hmac : Hmac) (p : Primitives R) where
  -- The calls through the class.
  abbrev chunk_header_size : Module → ℕ
  chunk_header_size (of_dummy d) = Dummy.chunk_header_size
  chunk_header_size (of_aes a) = Aes.chunk_header_size

  abbrev file_header_size : Module → ℕ
  file_header_size (of_dummy d) = Dummy.file_header_size
  file_header_size (of_aes a) = Aes.file_header_size

  abbrev suite_of : Module → Suite
  suite_of (of_dummy d) = dummy
  suite_of (of_aes a) = aes256gcm128_sha256

  abbrev file_header : Module → Bytes → Result Bytes
  file_header (of_dummy d) raw_header = Dummy.get_module_file_header hmac d raw_header
  file_header (of_aes a) raw_header = Aes.get_module_file_header p a raw_header

  abbrev set_secret : Bytes → Module → Result Module
  set_secret secret (of_dummy d) = as_dummy (Dummy.set_secret secret d)
  set_secret secret (of_aes a) = as_aes (Aes.set_master_key p secret a)

  abbrev decrypt : Module → ℕ → Bytes → Result Bytes
  decrypt (of_dummy d) index raw = Dummy.decrypt_chunk hmac d index raw
  decrypt (of_aes a) index raw = Aes.decrypt_chunk p a index raw

  abbrev encrypt : Module → ℕ → Bytes → R → Result Bytes × R
  encrypt (of_dummy d) index text g = (Dummy.encrypt_chunk hmac d index text, g)
  encrypt (of_aes a) index text g = Aes.encrypt_chunk p a index text g

  abbrev encrypt_again : Module → ℕ → (raw text : Bytes) → R → Result Bytes × R
  encrypt_again (of_dummy d) index raw text g = (Dummy.encrypt_chunk_again hmac d index raw text, g)
  encrypt_again (of_aes a) index raw text g = Aes.encrypt_chunk_again p a index raw text g

  abbrev check : Module → Bytes → Result Bool
  check (of_dummy d) raw_header = Dummy.check_integrity hmac d raw_header
  check (of_aes a) raw_header = Aes.check_integrity p a raw_header

  unfoldable pub modules : Modules Module R
  modules = record {
    module_file_header_size = module_file_header_size;
    make = make_module p;
    make_from = λ suite header g. (parse_module suite header, g);
    get_chunk_header_size = chunk_header_size;
    get_module_file_header_size = file_header_size;
    get_encryption_suite = suite_of;
    get_module_file_header = file_header;
    set_module_secret_material = set_secret;
    decrypt_chunk = decrypt;
    encrypt_chunk = encrypt;
    encrypt_chunk_again = encrypt_again;
    check_integrity = check;
  }
