-- ===== src/Tests/Encrypted/Recovered.antt =====
-- A file of src/vfs/vfs_encrypted.cc to which a chunk was written, while its header was not.
use bctoolbox.Common.{◌≡◌, ◌≢◌, refl, some, [], ◌∷◌, ◌++◌, length, arith}
use bctoolbox.Vfs.{Bytes}
use bctoolbox.Vfs.Open.{rdwr, fresh_file}
use bctoolbox.EncryptedVfs.{Evfs, returns, get_chunk_offset, raw_file_size}
use bctoolbox.EncryptedVfs.Blocks.{flat}
use bctoolbox.EncryptedVfs.Header.{base_header}
use bctoolbox.EncryptedVfs.HeaderFields.{Fits}
use bctoolbox.EncryptedVfs.Open.{construct, new_object}
use bctoolbox.EncryptedVfs.Settings.{secret_material_set}
use bctoolbox.EncryptedVfs.Contents.{raw_of, IsCipher, Holds}
use bctoolbox.EncryptedVfs.WriteHeader.{header_of}
use bctoolbox.EncryptedVfs.Recovered.{construct-stale}
use bctoolbox.Tests.Files.{in_memory, in_memory-Stores}
use bctoolbox.Tests.Encrypted.{toy, toy-IsCipher}
use bctoolbox.Tests.Encrypted.Reopened.{
  in_memory-Measures, toy-IsReadBack, wide, wide_chunks, no_directory, both_ways,
}

-- The header gives 16 bytes, where there are 18.
abbrev before_write : Evfs (Unit {0}) (Unit {0}) Bytes
before_write = record wide { file_size = 16 }

abbrev disk : Bytes
disk =
    header_of toy in_memory (λ d. d) in_memory-Stores tt toy-IsCipher before_write
    ++ flat raw_of wide_chunks

abbrev torn : Evfs (Unit {0}) (Unit {0}) Bytes
torn = record wide { file_std = fresh_file disk }

torn-Holds : Holds toy in_memory (λ d. d) torn tt wide_chunks
unfolding get_chunk_offset base_header toy-IsCipher
torn-Holds = record {
  encrypted = refl;
  chunk = omega arith;
  size = refl;
  number = omega arith;
  chunks = (
    record { decrypts = refl; header = refl; some_text = omega arith },
    (record { decrypts = refl; header = refl; some_text = omega arith }, tt),
  );
  blocks = (refl, (omega arith, tt));
  unpaged = refl;
  body = refl;
}

torn-Fits : Fits toy tt (record torn { file_size = 16 })
torn-Fits = record {
  version = omega arith;
  blocks = omega arith;
  whole_blocks = omega arith;
  size = omega arith;
}

size-disk : raw_file_size toy (record torn { file_size = 16 }) tt ≢ length disk
unfolding raw_file_size base_header toy-IsCipher
size-disk e = omega arith

construct-stale_example :
    let run =
      construct toy in_memory no_directory
        (some (secret_material_set toy []))
        both_ways
        (new_object (fresh_file disk) (b'f' ∷ []) rdwr tt) in
    (run.0 ≡ returns tt)
    × ((e' : Unit {0}) × (cipher' : IsCipher toy e') × Holds toy in_memory
          (λ d. d)
          run.1
          e'
          wide_chunks
        × (run.1.file_std.disk
            ≡ header_of toy in_memory (λ d. d) in_memory-Stores e' cipher' run.1
              ++ flat raw_of wide_chunks))
unfolding get_chunk_offset base_header toy-IsCipher
construct-stale_example =
    construct-stale toy in_memory (λ d. d) in_memory-Stores in_memory-Measures tt toy-IsCipher []
      toy-IsReadBack torn wide_chunks torn-Holds refl 16 torn-Fits no_directory both_ways
      (b'f' ∷ []) rdwr tt (fresh_file disk) refl refl (omega arith) refl size-disk (omega arith)
