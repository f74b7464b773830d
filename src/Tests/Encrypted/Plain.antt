-- ===== src/Tests/Encrypted/Plain.antt =====
-- A plain file in memory that is opened as an encrypted one of src/vfs/vfs_encrypted.cc.
use bctoolbox.Common.{◌≡◌, refl, some, false, List, [], ◌∷◌, arith, ◌++◌}
use bctoolbox.Vfs.{Bytes}
use bctoolbox.Vfs.Open.{rdwr, Flags, fresh_file}
use bctoolbox.EncryptedVfs.{returns, aes256gcm128_sha256}
use bctoolbox.EncryptedVfs.Blocks.{flat}
use bctoolbox.EncryptedVfs.Contents.{Chunk, raw_of, text_of, Holds}
use bctoolbox.EncryptedVfs.Open.{Directory, construct, new_object}
use bctoolbox.EncryptedVfs.WriteHeader.{header_of}
use bctoolbox.EncryptedVfs.Migrated.{Replaces}
use bctoolbox.EncryptedVfs.Plain.{IsPlain, IsMade, settings, construct-plain}
use bctoolbox.Tests.Files.{in_memory, in_memory-Stores}
use bctoolbox.Tests.Encrypted.{toy, toy-IsCipher}
use bctoolbox.Tests.Encrypted.Reopened.{in_memory-Measures}

abbrev hello : Bytes
hello = b'h' ∷ b'e' ∷ b'l' ∷ b'l' ∷ b'o' ∷ []

abbrev directory : Directory Bytes
directory = record { temporary = λ name. some []; move_to = λ name d flags. d }

directory-Replaces : Replaces in_memory (λ d. d) directory (b'f' ∷ [])
directory-Replaces = record {
  temporary = [];
  opens = refl;
  empty = refl;
  closes = λ d. refl;
  moves = λ d flags. refl;
}

toy-IsMade : IsMade toy aes256gcm128_sha256 [] tt tt
toy-IsMade = record { encrypts = refl; bare = tt; drawn = tt; makes = refl; keys = refl }

hello-IsPlain : IsPlain hello
hello-IsPlain long = refl

abbrev both_ways : Flags
both_ways = record { access = rdwr; creat = false; trunc = false; app = false }

construct-plain_example :
    let run =
      construct toy in_memory directory
        (some (settings toy aes256gcm128_sha256 []))
        both_ways
        (new_object (fresh_file hello) (b'f' ∷ []) rdwr tt) in
    (run.0 ≡ returns tt)
    × ((ys : List Chunk) × Holds toy in_memory (λ d. d) run.1 tt ys
        × (flat text_of ys ≡ hello)
        × (run.1.file_std.disk
            ≡ header_of toy in_memory (λ d. d) in_memory-Stores tt toy-IsCipher run.1
              ++ flat raw_of ys)
        × (run.1.chunk_size ≡ 4096))
construct-plain_example =
    construct-plain toy in_memory (λ d. d) in_memory-Stores in_memory-Measures hello (omega arith)
      hello-IsPlain aes256gcm128_sha256 [] tt tt toy-IsMade (b'f' ∷ []) rdwr refl (omega arith)
      (fresh_file hello) directory both_ways directory-Replaces toy-IsCipher refl refl (omega arith)
