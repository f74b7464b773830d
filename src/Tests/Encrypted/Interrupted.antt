-- ===== src/Tests/Encrypted/Interrupted.antt =====
-- A write to a file of src/vfs/vfs_encrypted.cc that ends before the header is written.
use bctoolbox.Common.{◌≡◌, refl, some, List, [], ◌∷◌, ◌++◌, length, drop, arith}
use bctoolbox.Vfs
use bctoolbox.Vfs.{Bytes, write_flushed}
use bctoolbox.Vfs.Contents.{stored}
use bctoolbox.Vfs.Open.{rdwr, fresh_file}
use bctoolbox.EncryptedVfs.{
  returns, get_chunk_offset, raw_chunk_size, get_chunk_index, raw_file_size,
}
use bctoolbox.EncryptedVfs.Blocks.{flat}
use bctoolbox.EncryptedVfs.Header.{write_header, make_header, base_header}
use bctoolbox.EncryptedVfs.Open.{construct, new_object}
use bctoolbox.EncryptedVfs.Write.{
  write, write_chunks, write_at, old_chunks, front_part, back_part, overwrite_loop, append_loop,
  put_chunks,
}
use bctoolbox.EncryptedVfs.Settings.{secret_material_set}
use bctoolbox.EncryptedVfs.Contents.{Chunk, text_of, IsCipher, Holds}
use bctoolbox.EncryptedVfs.WriteHeader.{header_of}
use bctoolbox.EncryptedVfs.Interrupted.{construct-interrupted}
use bctoolbox.Tests.Files.{in_memory, in_memory-Stores}
use bctoolbox.Tests.Encrypted.{toy, toy-IsCipher}
use bctoolbox.Tests.Encrypted.Reopened.{
  in_memory-Measures, toy-IsReadBack, wide, wide_chunks, wide-Holds, wide-Fits, no_directory,
  both_ways,
}

-- Two bytes behind the end.
abbrev more : Bytes
more = b'x' ∷ b'y' ∷ []

abbrev half_written : Bytes
half_written =
    header_of toy in_memory (λ d. d) in_memory-Stores tt toy-IsCipher wide
    ++ drop (get_chunk_offset toy wide tt 0) (write toy in_memory more 18 wide).1.file_std.disk

size-half_written : length half_written ≡ 53
unfolding write write_chunks write_at old_chunks front_part back_part overwrite_loop append_loop
    put_chunks write_header make_header base_header raw_chunk_size get_chunk_index get_chunk_offset
    Vfs.write Vfs.read Vfs.flush write_flushed toy-IsCipher
size-half_written = refl

size-wide : raw_file_size toy wide tt ≡ 51
unfolding raw_file_size
size-wide = refl

construct-interrupted_example :
    let run =
      construct toy in_memory no_directory
        (some (secret_material_set toy []))
        both_ways
        (new_object (fresh_file half_written) (b'f' ∷ []) rdwr tt) in
    (run.0 ≡ returns tt)
    × ((e' : Unit {0}) × IsCipher toy e'
        × (ys : List Chunk) × Holds toy in_memory (λ d. d) run.1 e' ys
        × (flat text_of ys ≡ stored 18 more (flat text_of wide_chunks)))
construct-interrupted_example =
    construct-interrupted toy in_memory (λ d. d) in_memory-Stores in_memory-Measures tt toy-IsCipher
      [] toy-IsReadBack wide wide_chunks wide-Holds wide-Fits refl more 18 (omega arith)
      (omega arith) (omega arith) (omega arith) no_directory both_ways (b'f' ∷ []) rdwr tt
      (fresh_file half_written) refl refl (omega (arith, size-half_written))
      (λ same. omega (arith, size-half_written, size-wide))
