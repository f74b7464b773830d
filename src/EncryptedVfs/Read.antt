-- ===== src/EncryptedVfs/Read.antt =====
-- src/vfs/vfs_encrypted.cc, continued: reading from the chunks of a file.
use bctoolbox.Common.{
  ℕ, zero, suc, ◌+◌, ◌*◌, ◌%◌, ◌^◌, none, some, [], ◌++◌, length, take, drop, ltb, if◌then◌else◌,
}
use bctoolbox.Common.Int.{pos, is_neg}
use bctoolbox.Vfs
use bctoolbox.Vfs.{Bytes, Methods}
use bctoolbox.EncryptedVfs.{
  evfs, length_error, no_fuel, Result, returns, throws, and_then, Modules, Run, pure, throw, lift,
  on_file, ◌>>=◌, get, sub32, sub64, get_chunk_index, get_chunk_offset, raw_chunk_size,
}

module _ {E R : Type 0} (mods : Modules E R) (e : E) where
  -- The chunks of `size` bytes that were read, decrypted one by one. A round takes a byte at least.
  unfoldable pub decrypt_loop : (size fuel index : ℕ) → Bytes → Result Bytes
  decrypt_loop size zero index raw =
      if ltb (mods.get_chunk_header_size e) (length raw) then throws no_fuel else returns []
  decrypt_loop size (suc k) index raw =
      if ltb (mods.get_chunk_header_size e) (length raw)
      then (and_then (mods.decrypt_chunk e index (take size raw)) λ text.
          and_then (decrypt_loop size k ((index + 1) % 2 ^ 32) (drop size raw))
            λ rest. returns (text ++ rest))
      else returns []

-- The number of chunks from one to another, in 32 bits.
abbrev pub chunks_between : (first last : ℕ) → ℕ
chunks_between first last = (sub32 last first + 1) % 2 ^ 32

module _ {E R S : Type 0} (mods : Modules E R) (m : Methods S) where
  unfoldable pub read_chunks : E → (offset count : ℕ) → Run E R S Bytes
  read_chunks e offset count = do
    v ← get
    let first = get_chunk_index v offset
    let last = get_chunk_index v (sub64 (offset + count) 1)
    let size = raw_chunk_size mods v e
    (ret, raw) ←
        on_file
          (Vfs.read m (chunks_between first last * size) (pos (get_chunk_offset mods v e first)))
    if is_neg ret then throw evfs else do
      text ← lift (decrypt_loop mods e size (length raw) first raw)
      pure (take count (drop (offset % v.chunk_size) text))

  -- A plain file is read as it is; a failure makes the vector's new size a negative one.
  unfoldable pub read_plain : (offset count : ℕ) → Run E R S Bytes
  read_plain offset count = do
    (ret, bytes) ← on_file (Vfs.read m count (pos offset))
    if is_neg ret then throw length_error else pure bytes

  unfoldable pub read : (offset count : ℕ) → Run E R S Bytes
  read offset count = do
    v ← get
    elim v.encryption [ none ↦ read_plain offset count | some e ↦ read_chunks e offset count ]
