-- ===== src/Tests/Encrypted/Reopened.antt =====
-- A file of src/vfs/vfs_encrypted.cc that is written, and opened again by the constructor.
use bctoolbox.Common.{none, false, ◌≡◌, refl, some, List, [], ◌∷◌, ◌++◌, arith}
use bctoolbox.Vfs
use bctoolbox.Vfs.{Bytes, write_flushed}
use bctoolbox.Vfs.Contents.{Measures}
use bctoolbox.Vfs.Open.{rdwr, Flags, fresh_file, zeros}
use bctoolbox.EncryptedVfs.{Evfs, returns, Run, get_chunk_offset, raw_chunk_size, get_chunk_index}
use bctoolbox.EncryptedVfs.Blocks.{flat}
use bctoolbox.EncryptedVfs.Header.{write_header, make_header, base_header}
use bctoolbox.EncryptedVfs.HeaderFields.{Fits}
use bctoolbox.EncryptedVfs.Open.{Directory, construct, new_object}
use bctoolbox.EncryptedVfs.Read.{read}
use bctoolbox.EncryptedVfs.Write.{
  write, write_chunks, write_at, old_chunks, front_part, back_part, overwrite_loop, append_loop,
  put_chunks,
}
use bctoolbox.EncryptedVfs.Settings.{secret_material_set}
use bctoolbox.EncryptedVfs.Contents.{Chunk, raw_of, IsCipher, Holds}
use bctoolbox.EncryptedVfs.Parsed.{IsReadBack}
use bctoolbox.EncryptedVfs.Reopened.{construct-write_header}
use bctoolbox.EncryptedVfs.Session.{read-reopened}
use bctoolbox.Tests.Files.{in_memory, in_memory-Stores}
use bctoolbox.Tests.Encrypted.{toy, toy-IsCipher, opened, ef}

pub in_memory-Measures : Measures in_memory (λ d. d)
in_memory-Measures = record { gives_size = λ d. refl; keeps_size = λ d. refl }

pub toy-IsReadBack : IsReadBack toy tt []
toy-IsReadBack = record {
  header_size = refl;
  some_header = omega arith;
  read_back = λ raw header g made. record {
    again = tt;
    drawn = tt;
    made = refl;
    chunk_header = refl;
    file_header = refl;
    keyed = tt;
    keys = refl;
    passes = refl;
    keyed_chunk_header = refl;
    keyed_file_header = refl;
    decrypts = λ i chunk. refl;
    cipher = toy-IsCipher;
  };
}

-- 16 zeros and "ef", in chunks of 16 bytes.
abbrev sixteen : Chunk
sixteen = record { raw = 7 ∷ zeros 16; text = zeros 16 }

abbrev pub wide_chunks : List Chunk
wide_chunks = sixteen ∷ ef ∷ []

abbrev pub wide : Evfs (Unit {0}) (Unit {0}) Bytes
wide = record opened {
  chunk_size = 16;
  file_size = 18;
  file_std = fresh_file (zeros 31 ++ flat raw_of wide_chunks);
}

pub wide-Holds : Holds toy in_memory (λ d. d) wide tt wide_chunks
unfolding get_chunk_offset
wide-Holds = record {
  encrypted = refl;
  chunk = omega arith;
  size = refl;
  number = omega arith;
  chunks = (
    record { decrypts = refl; header = refl; some_text = omega arith },
    (record { decrypts = refl; header = refl; some_text = omega arith }, tt),
  );
  blocks = (refl, (omega arith, tt));
  unpaged = refl;
  body = refl;
}

pub wide-Fits : Fits toy tt wide
wide-Fits = record {
  version = omega arith;
  blocks = omega arith;
  whole_blocks = omega arith;
  size = omega arith;
}

abbrev pub no_directory : Directory Bytes
no_directory = record { temporary = λ name. none; move_to = λ name d flags. d }

abbrev pub both_ways : Flags
both_ways = record { access = rdwr; creat = false; trunc = false; app = false }

-- The file behind a call, opened once more.
abbrev once_more : Evfs (Unit {0}) (Unit {0}) Bytes → Evfs (Unit {0}) (Unit {0}) Bytes
once_more v = new_object (fresh_file v.file_std.disk) (b'f' ∷ []) rdwr tt

abbrev reopen : Run (Unit {0}) (Unit {0}) Bytes (Unit {0})
reopen = construct toy in_memory no_directory (some (secret_material_set toy [])) both_ways

construct-write_header_example :
    let run = reopen (once_more (write_header toy in_memory wide).1) in
    (run.0 ≡ returns tt)
    × ((e' : Unit {0}) × IsCipher toy e'
        × Holds toy in_memory (λ d. d) run.1 e' wide_chunks
        × (run.1.chunk_size ≡ 16))
unfolding write_header make_header base_header Vfs.write Vfs.flush write_flushed
construct-write_header_example =
    construct-write_header toy in_memory (λ d. d) in_memory-Stores in_memory-Measures tt
      toy-IsCipher [] toy-IsReadBack wide wide_chunks wide-Holds wide-Fits refl no_directory
      both_ways (b'f' ∷ []) rdwr tt (fresh_file (write_header toy in_memory wide).1.file_std.disk)
      refl refl (omega arith)

-- Two bytes over both chunks.
abbrev xy : Bytes
xy = b'x' ∷ b'y' ∷ []

read-reopened_example :
    let run = reopen (once_more (write toy in_memory xy 15 wide).1) in
    (run.0 ≡ returns tt)
    × ((read toy in_memory 14 4 run.1).0 ≡ returns (0 ∷ b'x' ∷ b'y' ∷ b'f' ∷ []))
unfolding write write_chunks write_at old_chunks front_part back_part overwrite_loop append_loop
    put_chunks write_header make_header base_header raw_chunk_size get_chunk_index get_chunk_offset
    Vfs.write Vfs.read Vfs.flush write_flushed
read-reopened_example =
    read-reopened toy in_memory (λ d. d) in_memory-Stores in_memory-Measures tt toy-IsCipher []
      toy-IsReadBack wide wide_chunks wide-Holds wide-Fits refl xy 15 (omega arith) (omega arith)
      (omega arith) no_directory both_ways (b'f' ∷ []) rdwr tt
      (fresh_file (write toy in_memory xy 15 wide).1.file_std.disk) refl refl (omega arith) 14 4
      (omega arith) (omega arith) (omega arith)
