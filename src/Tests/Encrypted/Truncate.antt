-- ===== src/Tests/Encrypted/Truncate.antt =====
-- A file of src/vfs/vfs_encrypted.cc that is cut within its last chunk.
use bctoolbox.Common.{◌≡◌, refl, List, [], ◌∷◌, arith}
use bctoolbox.Vfs.Contents.{Shortens}
use bctoolbox.EncryptedVfs.{returns, get_chunk_offset}
use bctoolbox.EncryptedVfs.Blocks.{flat}
use bctoolbox.EncryptedVfs.Contents.{Chunk, text_of, Holds}
use bctoolbox.EncryptedVfs.Write.{truncate}
use bctoolbox.EncryptedVfs.CutChunk.{resize-take}
use bctoolbox.EncryptedVfs.Truncate.{truncate-text}
use bctoolbox.Tests.Files.{in_memory, in_memory-Stores}
use bctoolbox.Tests.Encrypted.{toy, toy-IsCipher, opened, opened-Holds, two_chunks}

in_memory-Shortens : Shortens in_memory (λ d. d)
in_memory-Shortens = record { cuts_to = λ d n small. resize-take n d small }

truncate-text_example :
    ((truncate toy in_memory 5 opened).0 ≡ returns tt)
    × ((ys : List Chunk) × Holds toy in_memory (λ d. d) (truncate toy in_memory 5 opened).1 tt ys
        × (flat text_of ys ≡ b'a' ∷ b'b' ∷ b'c' ∷ b'd' ∷ b'e' ∷ []))
unfolding get_chunk_offset
truncate-text_example =
    truncate-text toy in_memory (λ d. d) in_memory-Stores in_memory-Shortens tt toy-IsCipher opened
      two_chunks opened-Holds refl (omega arith) 5 (omega arith) (omega arith)
