-- ===== src/Tests/Encrypted.antt =====
-- The theorems about src/vfs/vfs_encrypted.cc over a file in memory and a module that puts a byte in
-- front of each chunk.
pub mod Reopened
pub mod Truncate
pub mod Plain
pub mod Recovered
pub mod Interrupted
use bctoolbox.Common.{◌≡◌, refl, some, List, [], ◌∷◌, ◌++◌, arith, drop, false, true}
use bctoolbox.Vfs.{Bytes}
use bctoolbox.Vfs.Open.{rdwr, fresh_file, zeros}
use bctoolbox.EncryptedVfs.{Modules, Evfs, returns, aes256gcm128_sha256, get_chunk_offset}
use bctoolbox.EncryptedVfs.Blocks.{flat}
use bctoolbox.EncryptedVfs.Read.{read}
use bctoolbox.EncryptedVfs.Write.{write}
use bctoolbox.EncryptedVfs.Contents.{Chunk, raw_of, IsCipher, Holds}
use bctoolbox.EncryptedVfs.ReadText.{read-decrypted}
use bctoolbox.EncryptedVfs.WriteText.{Leaves, write-text}
use bctoolbox.Tests.Files.{in_memory, in_memory-Stores}

abbrev toy : Modules (Unit {0}) (Unit {0})
toy = record {
  module_file_header_size = λ suite. 2;
  make = λ suite g. (returns (some tt), g);
  make_from = λ suite header g. (returns tt, g);
  get_chunk_header_size = λ e. 1;
  get_module_file_header_size = λ e. 2;
  get_encryption_suite = λ e. aes256gcm128_sha256;
  get_module_file_header = λ e raw_header. returns (8 ∷ 9 ∷ []);
  set_module_secret_material = λ secret e. returns e;
  decrypt_chunk = λ e i raw. returns (drop 1 raw);
  encrypt_chunk = λ e i text g. (returns (7 ∷ text), g);
  encrypt_chunk_again = λ e i raw text g. (returns (7 ∷ text), g);
  check_integrity = λ e raw_header. returns true;
}

toy-IsCipher : IsCipher toy tt
toy-IsCipher = record {
  encrypts = λ i text g small more.
      (7 ∷ text, refl, record { decrypts = refl; header = omega arith; some_text = more });
  encrypts_again = λ i x text g chunk small more.
      (7 ∷ text, refl, record { decrypts = refl; header = omega arith; some_text = more });
  module_header = λ raw_header. (8 ∷ 9 ∷ [], refl, refl);
}

-- "abcdef" in chunks of four bytes.
abbrev abcd : Chunk
abcd = record { raw = 7 ∷ b'a' ∷ b'b' ∷ b'c' ∷ b'd' ∷ []; text = b'a' ∷ b'b' ∷ b'c' ∷ b'd' ∷ [] }

abbrev ef : Chunk
ef = record { raw = 7 ∷ b'e' ∷ b'f' ∷ []; text = b'e' ∷ b'f' ∷ [] }

abbrev two_chunks : List Chunk
two_chunks = abcd ∷ ef ∷ []

abbrev opened : Evfs (Unit {0}) (Unit {0}) Bytes
opened = record {
  version_number = 0x0100;
  chunk_size = 4;
  encryption = some tt;
  header_extension_size = 0;
  filename = b'f' ∷ [];
  file_size = 6;
  r_header = [];
  encrypt_existing_plain_file = false;
  integrity_full_check = false;
  access_mode = rdwr;
  file_std = fresh_file (zeros 31 ++ flat raw_of two_chunks);
  rng = tt;
}

opened-Holds : Holds toy in_memory (λ d. d) opened tt two_chunks
unfolding get_chunk_offset
opened-Holds = record {
  encrypted = refl;
  chunk = omega arith;
  size = refl;
  number = omega arith;
  chunks = (
    record { decrypts = refl; header = refl; some_text = omega arith },
    (record { decrypts = refl; header = refl; some_text = omega arith }, tt),
  );
  blocks = (refl, (omega arith, tt));
  unpaged = refl;
  body = refl;
}

-- Three bytes from both chunks.
read-decrypted_example :
    ((read toy in_memory 3 3 opened).0 ≡ returns (b'd' ∷ b'e' ∷ b'f' ∷ []))
    × Holds toy in_memory (λ d. d) (read toy in_memory 3 3 opened).1 tt two_chunks
read-decrypted_example =
    read-decrypted toy in_memory (λ d. d) in_memory-Stores opened tt two_chunks opened-Holds 3 3
      (omega arith) (omega arith) (omega arith)

-- Two bytes over both chunks.
write-text_example :
    ((write toy in_memory (b'x' ∷ b'y' ∷ []) 3 opened).0 ≡ returns 2)
    × Leaves toy in_memory
        (λ d. d)
        in_memory-Stores
        tt
        toy-IsCipher
        (write toy in_memory (b'x' ∷ b'y' ∷ []) 3 opened).1
        (b'a' ∷ b'b' ∷ b'c' ∷ b'x' ∷ b'y' ∷ b'f' ∷ [])
        4
        0x0100
write-text_example =
    write-text toy in_memory (λ d. d) in_memory-Stores tt toy-IsCipher opened two_chunks
      opened-Holds (b'x' ∷ b'y' ∷ []) 3 refl (omega arith) (omega arith) (omega arith)
