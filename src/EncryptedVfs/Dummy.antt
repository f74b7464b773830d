-- ===== src/EncryptedVfs/Dummy.antt =====
-- src/vfs/vfs_encryption_module_dummy.cc: the encryption module for tests. `bctbx_hmacSha256`, which
-- calls a library, is a parameter: of a key, a text and the number of bytes wanted. What is logged
-- is left out.
pub mod Xor
pub mod Sealed
use Prim.Native.Nat.{bit_xor}
use bctoolbox.Common.{
  ℕ, zero, suc, ◌+◌, ◌/◌, ◌%◌, ◌^◌, Bool, not, [], ◌∷◌, ◌++◌, length, take, drop, ltb, ◌==◌,
  if◌then◌else◌,
}
use bctoolbox.Vfs.{Bytes, overwrite}
use bctoolbox.Vfs.Open.{zeros}
use bctoolbox.EncryptedVfs.{evfs, undefined, Result, returns, throws, and_then}
use bctoolbox.EncryptedVfs.Header.{equal, big_endian}

-- `chunkHeaderSize`, `fileHeaderSize` and `secretMaterialSize`
abbrev pub chunk_header_size : ℕ
chunk_header_size = 16

abbrev pub file_header_size : ℕ
file_header_size = 16

abbrev pub secret_material_size : ℕ
secret_material_size = 16

-- `VfsEncryptionModuleDummy`
pub record Dummy : Type 0 where
  pub file_header : Bytes
  pub file_header_integrity : Bytes
  pub secret : Bytes

abbrev pub Hmac : Type 0
Hmac = (key text : Bytes) → (wanted : ℕ) → Bytes

-- The constructors: of a new file, and of the module's part of a header.
unfoldable pub new_dummy : Dummy
new_dummy = record {
  file_header = 0xaa ∷ 0x55 ∷ 0xbb ∷ 0x44 ∷ 0xcc ∷ 0x33 ∷ 0xdd ∷ 0x22 ∷ [];
  file_header_integrity = zeros 8;
  secret = [];
}

unfoldable pub parse_dummy : Bytes → Result Dummy
parse_dummy header =
    if length header == file_header_size
    then returns
        (record { file_header = drop 8 header; file_header_integrity = take 8 header; secret = [] })
    else throws evfs

unfoldable pub set_secret : Bytes → Dummy → Result Dummy
set_secret secret d =
    if length secret == secret_material_size
    then returns (record d { secret = secret })
    else throws evfs

abbrev pub u32_bytes : ℕ → Bytes
u32_bytes n = (n / 2 ^ 24 % 256) ∷ (n / 2 ^ 16 % 256) ∷ (n / 2 ^ 8 % 256) ∷ (n % 256) ∷ []

-- The chunk index and the count of encryptions, at their places in a chunk.
abbrev pub index_of : Bytes → ℕ
index_of raw = big_endian 4 8 raw 0

abbrev pub count_of : Bytes → ℕ
count_of raw = big_endian 4 12 raw 0

-- A block of at most 16 bytes and the key.
abbrev pub xor_block : Bytes → Bytes → Bytes
xor_block [] key = []
xor_block (b ∷ s) [] = b ∷ s
xor_block (b ∷ s) (k ∷ key) = bit_xor b k ∷ xor_block s key

-- The text, 16 bytes at a time.
unfoldable pub xor_loop : (fuel : ℕ) (key text : Bytes) → Bytes
xor_loop zero key text = []
xor_loop (suc k) key [] = []
xor_loop (suc k) key (b ∷ text) =
    xor_block (take 16 (b ∷ text)) key ++ xor_loop k key (drop 16 (b ∷ text))

abbrev pub xor_all : (key text : Bytes) → Bytes
xor_all key text = xor_loop (length text) key text

-- The key of a chunk: the header of the file and 8 bytes of that of the chunk, with the secret.
unfoldable pub xor_key : Dummy → Bytes → Bytes
xor_key d raw = xor_block (d.file_header ++ take 8 (drop 8 raw)) d.secret

module _ (hmac : Hmac) where
  -- The key of the HMAC has 16 bytes; with fewer, memory behind the secret is read.
  unfoldable pub keyed : Dummy → Bytes → Result Bytes
  keyed d text =
      if ltb (length d.secret) secret_material_size
      then throws undefined
      else returns (hmac (take secret_material_size d.secret) text 8)

  unfoldable pub chunk_integrity_tag : Dummy → Bytes → Result Bytes
  chunk_integrity_tag d raw = if ltb (length raw) 8 then throws undefined else keyed d (drop 8 raw)

  -- The tag in front, and the index, must be the right ones. A chunk that is shorter than its header
  -- is read beyond its end.
  unfoldable pub check_chunk : Dummy → (index : ℕ) → Bytes → Result (Unit {0})
  check_chunk d index raw = and_then (chunk_integrity_tag d raw) λ tag.
      if not (equal tag (take 8 raw))
      then throws evfs
      else if ltb (length raw) 12
      then throws undefined
      else if not (index == index_of raw)
      then throws evfs
      else if ltb (length raw) chunk_header_size
      then throws undefined
      else returns tt

  unfoldable pub decrypt_chunk : Dummy → (index : ℕ) → Bytes → Result Bytes
  decrypt_chunk d index raw =
      and_then (check_chunk d index raw)
        λ _. returns (xor_all (xor_key d raw) (drop chunk_header_size raw))

  -- A chunk of its header, whose tag is still missing, and its text.
  unfoldable pub sealed : Dummy → (header text : Bytes) → Result Bytes
  sealed d header text =
      let raw = header ++ xor_all (xor_key d header) text in
      and_then (chunk_integrity_tag d raw) λ tag. returns (overwrite 0 tag raw)

  unfoldable pub encrypt_chunk : Dummy → (index : ℕ) → Bytes → Result Bytes
  encrypt_chunk d index text = sealed d (zeros 8 ++ u32_bytes index ++ zeros 4) text

  -- A chunk that is there keeps its index, and its count goes up.
  unfoldable pub encrypt_chunk_again : Dummy → (index : ℕ) → (raw text : Bytes) → Result Bytes
  encrypt_chunk_again d index raw text =
      and_then (check_chunk d index raw)
        λ _. sealed d (take 12 raw ++ u32_bytes ((count_of raw + 1) % 2 ^ 32)) text

  -- The tag of the header of the file, with the module's own part behind it.
  unfoldable pub header_tag : Dummy → (raw_header : Bytes) → Result Bytes
  header_tag d raw_header = keyed d (raw_header ++ d.file_header)

  unfoldable pub get_module_file_header : Dummy → (raw_header : Bytes) → Result Bytes
  get_module_file_header d raw_header =
      and_then (header_tag d raw_header) λ tag. returns (tag ++ d.file_header)

  unfoldable pub check_integrity : Dummy → (raw_header : Bytes) → Result Bool
  check_integrity d raw_header =
      and_then (header_tag d raw_header) λ tag. returns (equal tag d.file_header_integrity)
