-- ===== src/EncryptedVfs/Write.antt =====
-- src/vfs/vfs_encrypted.cc, continued: writing to the chunks of a file, and its end.
use bctoolbox.Common.{
  ℕ, zero, suc, ◌+◌, ◌-◌, ◌*◌, ◌%◌, ◌^◌, max, not, ◌&&◌, none, some, [], ◌∷◌, ◌++◌, length, take,
  drop, ltb, ◌==◌, if◌then◌else◌,
}
use bctoolbox.Common.Int.{pos, is_neg, ◌==ℤ◌}
use bctoolbox.Vfs
use bctoolbox.Vfs.{Bytes, Methods}
use bctoolbox.Vfs.Open.{zeros}
use bctoolbox.EncryptedVfs.{
  evfs, length_error, undefined, no_fuel, Modules, Run, pure, throw, lift, on_file, randomly, ◌>>=◌,
  ◌>>◌, get, modify, sub64, get_chunk_index, get_chunk_offset, raw_chunk_size, raw_file_size,
}
use bctoolbox.EncryptedVfs.Header.{write_header}
use bctoolbox.EncryptedVfs.Read.{chunks_between}

-- The new chunks, the text that is left, and the index behind the last one.
abbrev pub Encrypted : Type 0
Encrypted = Bytes × Bytes × ℕ

-- `plain.resize(n)`
abbrev pub resize : ℕ → Bytes → Bytes
resize n s = take n s ++ zeros (n - length s)

module _ {E R S : Type 0} (mods : Modules E R) (e : E) where
  -- The chunks that were there are encrypted again with their new text, `chunk` bytes of text each.
  unfoldable pub overwrite_loop :
      (chunk size fuel index : ℕ) (raw text : Bytes) → Run E R S Encrypted
  overwrite_loop chunk size fuel index [] text = pure ([], text, index)
  overwrite_loop chunk size zero index (b ∷ raw) text = throw no_fuel
  overwrite_loop chunk size (suc k) index (b ∷ raw) text = do
    new ← randomly (mods.encrypt_chunk_again e index (take size (b ∷ raw)) (take chunk text))
    (out, rest, next) ←
        overwrite_loop chunk size k ((index + 1) % 2 ^ 32) (drop size (b ∷ raw)) (drop chunk text)
    pure (new ++ out, rest, next)

  unfoldable pub append_loop : (chunk fuel index : ℕ) (text : Bytes) → Run E R S Bytes
  append_loop chunk fuel index [] = pure []
  append_loop chunk zero index (b ∷ text) = throw no_fuel
  append_loop chunk (suc k) index (b ∷ text) = do
    new ← randomly (mods.encrypt_chunk e index (take chunk (b ∷ text)))
    out ← append_loop chunk k ((index + 1) % 2 ^ 32) (drop chunk (b ∷ text))
    pure (new ++ out)

  -- The first `n` bytes of the text of a chunk, and what is behind them; both must be there.
  abbrev pub chunk_head : (n index : ℕ) → Bytes → Run E R S Bytes
  chunk_head n index raw = do
    text ← lift (mods.decrypt_chunk e index raw)
    if ltb (length text) n then throw undefined else pure (take n text)

  abbrev pub chunk_tail : (n index : ℕ) → Bytes → Run E R S Bytes
  chunk_tail n index raw = do
    text ← lift (mods.decrypt_chunk e index raw)
    if ltb (length text) n then throw undefined else pure (drop n text)

module _ {E R S : Type 0} (mods : Modules E R) where
  -- What the first chunk holds in front of the text: `start` is where it starts, and `at` where the
  -- text goes.
  unfoldable pub front_part : E → (first start at : ℕ) (raw : Bytes) → Run E R S Bytes
  front_part e first start at raw = do
    v ← get
    if ltb start at
        then chunk_head mods e (at - start) first (take (raw_chunk_size mods v e) raw)
        else pure []

  -- What the last chunk holds behind the front, the text with that in front of it.
  unfoldable pub back_part : E → (first last start : ℕ) (raw front : Bytes) → Run E R S Bytes
  back_part e first last start raw front = do
    v ← get
    let part = length front % v.chunk_size
    let skipped = get_chunk_offset mods v e last - get_chunk_offset mods v e first
    if not (part == 0) && ltb (length front + start) v.file_size
        then if ltb (length raw) skipped
          then throw undefined
          else chunk_tail mods e part last (take (raw_chunk_size mods v e) (drop skipped raw))
        else pure []

module _ {E R S : Type 0} (mods : Modules E R) (m : Methods S) where
  unfoldable pub write_plain : Bytes → (offset : ℕ) → Run E R S ℕ
  write_plain text offset = do
    ret ← on_file (Vfs.write m text (pos offset))
    if ret ==ℤ pos (length text) then pure (length text) else throw evfs

  -- The chunks from `first` on that a write goes over, as they are in the file.
  unfoldable pub old_chunks : E → (first last start : ℕ) → Run E R S Bytes
  old_chunks e first last start = do
    v ← get
    if ltb start v.file_size
        then (do
          (ret, raw) ← on_file (
              Vfs.read m (chunks_between first last * raw_chunk_size mods v e)
                (pos (get_chunk_offset mods v e first)))
          if is_neg ret then throw length_error else pure raw)
        else pure []

  -- The new chunks go to the file, and the header gets the new size of the text.
  unfoldable pub put_chunks : E → (first new_size : ℕ) → Bytes → Run E R S (Unit {0})
  put_chunks e first new_size raw = do
    v ← get
    ret ← on_file (Vfs.write m raw (pos (get_chunk_offset mods v e first)))
    if ret ==ℤ pos (length raw)
        then (do modify (λ v. record v { file_size = new_size }); write_header mods m)
        else throw evfs

  -- The text goes to `at`, within the text of the file or at its end.
  unfoldable pub write_at : E → (new_size : ℕ) (text : Bytes) (at : ℕ) → Run E R S (Unit {0})
  write_at e new_size text at = do
    v ← get
    let first = get_chunk_index v at
    let last = get_chunk_index v (sub64 (at + length text) 1)
    let start = at - at % v.chunk_size
    raw ← old_chunks e first last start
    head ← front_part mods e first start at raw
    tail ← back_part mods e first last start raw (head ++ text)
    let whole = head ++ text ++ tail
    (over, rest, next) ←
        overwrite_loop mods e v.chunk_size (raw_chunk_size mods v e) (length raw) first raw whole
    new ← append_loop mods e v.chunk_size (length rest) next rest
    put_chunks e first new_size (over ++ new)

  -- Behind the end, zeros go in front of the text.
  unfoldable pub write_chunks : E → Bytes → (offset : ℕ) → Run E R S ℕ
  write_chunks e text offset = do
    v ← get
    let new_size = max v.file_size (length text + offset)
    if ltb v.file_size offset
        then write_at e new_size (zeros (offset - v.file_size) ++ text) v.file_size
        else write_at e new_size text offset
    pure (length text)

  unfoldable pub write : Bytes → (offset : ℕ) → Run E R S ℕ
  write text offset = do
    v ← get
    elim v.encryption [ none ↦ write_plain text offset | some e ↦ write_chunks e text offset ]

  -- The chunk that is the last one then is cut and encrypted again.
  unfoldable pub cut_chunk : E → (new_size : ℕ) → Run E R S (Unit {0})
  cut_chunk e new_size = do
    v ← get
    let index = get_chunk_index v new_size
    let place = get_chunk_offset mods v e index
    (ret, raw) ← on_file (Vfs.read m (raw_chunk_size mods v e) (pos place))
    if is_neg ret then throw length_error else do
      text ← lift (mods.decrypt_chunk e index raw)
      new ← randomly (mods.encrypt_chunk_again e index raw (resize (new_size % v.chunk_size) text))
      written ← on_file (Vfs.write m new (pos place))
      if written ==ℤ pos (length new) then pure tt else throw evfs

  unfoldable pub shrink : E → (new_size : ℕ) → Run E R S (Unit {0})
  shrink e new_size = do
    v ← get
    if new_size % v.chunk_size == 0 then pure tt else cut_chunk e new_size
    modify (λ v. record v { file_size = new_size })
    w ← get
    on_file (Vfs.truncate m (pos (raw_file_size mods w e)))
    write_header mods m

  unfoldable pub truncate : (new_size : ℕ) → Run E R S (Unit {0})
  truncate new_size = do
    v ← get
    elim v.encryption [
      | none ↦ (do on_file (Vfs.truncate m (pos new_size)); pure tt)
      | some e ↦
          if ltb v.file_size new_size
          then (do write [] new_size; pure tt)
          else if ltb new_size v.file_size
          then shrink e new_size
          else pure tt
    ]
