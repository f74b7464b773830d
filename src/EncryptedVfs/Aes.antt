-- ===== src/EncryptedVfs/Aes.antt =====
-- src/vfs/vfs_encryption_module_aes256gcm_sha256.cc: the encryption module of AES-GCM and SHA-256.
-- The primitives, which call a library, are a parameter. That keys are cleaned is left out.
use bctoolbox.Common.{
  ℕ, ◌+◌, Bool, Option, none, some, [], ◌∷◌, ◌++◌, length, take, drop, ltb, ◌==◌, if◌then◌else◌,
}
use bctoolbox.Vfs.{Bytes}
use bctoolbox.Vfs.Open.{zeros}
use bctoolbox.EncryptedVfs.{evfs, undefined, Result, returns, throws}
use bctoolbox.EncryptedVfs.Header.{equal}
use bctoolbox.EncryptedVfs.Dummy.{u32_bytes}

-- `RNG::randomize`, `HMAC<SHA256>`, `HKDF<SHA256>`, and `AEADEncrypt` and `AEADDecrypt` of
-- AES256GCM128 with no associated data: a cipher and a tag, and the text where the tag is right.
pub record Primitives (R : Type 0) : Type 0 where
  pub randomize : (size : ℕ) → R → Bytes × R
  pub hmac : (key text : Bytes) → Bytes
  pub hkdf : (salt key info : Bytes) → (size : ℕ) → Bytes
  pub aead_encrypt : (key iv text : Bytes) → Bytes × Bytes
  pub aead_decrypt : (key iv cipher tag : Bytes) → Option Bytes

-- `chunkAuthTagSize`, `chunkIVSize`, `fileSaltSize`, `fileAuthTagSize`, `masterKeySize`, and
-- `AES256GCM128::keySize()`
abbrev pub chunk_auth_tag_size : ℕ
chunk_auth_tag_size = 16

abbrev pub chunk_iv_size : ℕ
chunk_iv_size = 12

abbrev pub chunk_header_size : ℕ
chunk_header_size = chunk_auth_tag_size + chunk_iv_size

abbrev pub file_salt_size : ℕ
file_salt_size = 16

abbrev pub file_auth_tag_size : ℕ
file_auth_tag_size = 32

abbrev pub file_header_size : ℕ
file_header_size = file_salt_size + file_auth_tag_size

abbrev pub master_key_size : ℕ
master_key_size = 32

-- The texts EVFS file Header and EVFS chunk.
abbrev pub header_info : Bytes
header_info =
    b'E' ∷ b'V' ∷ b'F' ∷ b'S' ∷ b' ' ∷ b'f' ∷ b'i' ∷ b'l' ∷ b'e' ∷ b' ' ∷ b'H' ∷ b'e' ∷ b'a' ∷ b'd'
    ∷ b'e' ∷ b'r' ∷ []

abbrev pub chunk_info : Bytes
chunk_info = b'E' ∷ b'V' ∷ b'F' ∷ b'S' ∷ b' ' ∷ b'c' ∷ b'h' ∷ b'u' ∷ b'n' ∷ b'k' ∷ []

-- `VfsEM_AES256GCM_SHA256`
pub record Aes : Type 0 where
  pub file_salt : Bytes
  pub file_header_integrity : Bytes
  pub master_key : Bytes
  pub header_key : Bytes

module _ {R : Type 0} (p : Primitives R) where
  -- The constructors: of a new file, with a random salt, and of the module's part of a header.
  unfoldable pub new_aes : R → Aes × R
  new_aes g =
      let (salt, g') = p.randomize file_salt_size g in
      (
        record {
          file_salt = salt;
          file_header_integrity = zeros file_auth_tag_size;
          master_key = [];
          header_key = [];
        },
        g',
      )

  unfoldable pub set_master_key : Bytes → Aes → Result Aes
  set_master_key secret a =
      if length secret == master_key_size
      then returns (record a {
        master_key = secret;
        header_key = p.hkdf a.file_salt secret header_info master_key_size;
      })
      else throws evfs

  unfoldable pub derive_chunk_key : Aes → (index : ℕ) → Bytes
  derive_chunk_key a index = p.hkdf (a.file_salt ++ u32_bytes index) a.master_key chunk_info 32

  -- A chunk is a tag, an initialisation vector, and the cipher.
  unfoldable pub decrypt_chunk : Aes → (index : ℕ) → Bytes → Result Bytes
  decrypt_chunk a index raw =
      if length a.master_key == 0
      then throws evfs
      else if ltb (length raw) chunk_header_size
      then throws undefined
      else elim (p.aead_decrypt (derive_chunk_key a index)
          (take chunk_iv_size (drop chunk_auth_tag_size raw)) (drop chunk_header_size raw)
          (take chunk_auth_tag_size raw)) [ none ↦ throws evfs | some text ↦ returns text ]

  unfoldable pub encrypt_chunk : Aes → (index : ℕ) → Bytes → R → Result Bytes × R
  encrypt_chunk a index text g =
      let (iv, g') = p.randomize chunk_iv_size g in
      let (cipher, tag) = p.aead_encrypt (derive_chunk_key a index) iv text in
      if length a.master_key == 0 then (throws evfs, g) else (returns (tag ++ (iv ++ cipher)), g')

  -- Nothing of the old chunk is used.
  unfoldable pub encrypt_chunk_again : Aes → (index : ℕ) → (raw text : Bytes) → R → Result Bytes × R
  encrypt_chunk_again a index raw text g = encrypt_chunk a index text g

  unfoldable pub get_module_file_header : Aes → (raw_header : Bytes) → Result Bytes
  get_module_file_header a raw_header =
      if length a.header_key == 0
      then throws evfs
      else returns (p.hmac a.header_key raw_header ++ a.file_salt)

  unfoldable pub check_integrity : Aes → (raw_header : Bytes) → Result Bool
  check_integrity a raw_header =
      if length a.header_key == 0
      then throws evfs
      else returns (equal (p.hmac a.header_key raw_header) a.file_header_integrity)

unfoldable pub parse_aes : Bytes → Result Aes
parse_aes header =
    if length header == file_header_size
    then returns (record {
      file_salt = drop file_auth_tag_size header;
      file_header_integrity = take file_auth_tag_size header;
      master_key = [];
      header_key = [];
    })
    else throws evfs
