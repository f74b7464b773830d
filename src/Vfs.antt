-- ===== src/Vfs.antt =====
-- src/vfs/vfs.c: files with a page that collects what fprintf writes, and a page that get_nxtline
-- reads lines from. The methods of the VFS below are a parameter, which works on a state of its own.
-- The tests for a NULL file or buffer, and what the error paths log, are left out; allocation
-- succeeds.
pub mod Open
pub mod Fprintf
pub mod Lines
pub mod Flush
pub mod Invariant
pub mod Reachable
pub mod Contents
pub mod Refine
pub mod Session
pub mod Standard
pub mod Unpaged
pub mod Patch
use bctoolbox.Common.{
  ℕ, zero, suc, ◌+◌, ◌-◌, Bool, true, false, ◌&&◌, ◌||◌, Option, none, some, List, [], ◌∷◌, ◌++◌,
  ltb, ◌==◌, if◌then◌else◌, length, take, drop,
}
use bctoolbox.Common.Int.{ℤ, pos, negsuc, ◌+ℤ◌, is_neg, ◌==ℤ◌, ltb_ℤ}

abbrev pub Bytes : Type 0
Bytes = List ℕ

-- `BCTBX_VFS_OK`, `BCTBX_VFS_ERROR`, `BCTBX_VFS_PRINTF_PAGE_SIZE`, `BCTBX_VFS_GETLINE_PAGE_SIZE`
abbrev pub ok : ℤ
ok = pos 0

abbrev pub error : ℤ
error = negsuc 254

abbrev pub printf_page_size : ℕ
printf_page_size = 4096

abbrev pub getline_page_size : ℕ
getline_page_size = 17385

-- `bctbx_vfs_file_t`: `disk` stands for `pUserData` and the file below.
pub record File (S : Type 0) : Type 0 where
  pub disk : S
  pub offset : ℤ
  pub f_page : Bytes
  pub f_page_offset : ℤ
  pub f_size : ℕ
  pub g_page : Bytes
  pub g_page_offset : ℤ
  pub g_size : ℕ

-- An operation on a file returns a value and the file.
abbrev pub Op : Type 0 → Type 0 → Type 0
Op S A = File S → A × File S

-- `bctbx_io_methods_t`: each returns its status and the new state; a read also the bytes that it
-- puts into the buffer. Two methods may be missing.
pub record Methods (S : Type 0) : Type 0 where
  pub close_file : S → ℤ × S
  pub read_at : S → (count : ℕ) → (offset : ℤ) → (ℤ × Bytes) × S
  pub write_at : S → Bytes → (offset : ℤ) → ℤ × S
  pub truncate_file : S → ℤ → ℤ × S
  pub file_size : S → ℤ × S
  pub sync_file : S → ℤ × S
  pub get_line : Option (Bytes → (max_len : ℤ) → Op S (ℤ × Bytes))
  pub encrypted : Option (S → Bool)

module _ {S A : Type 0} where
  abbrev pub pure : A → Op S A
  pure a f = (a, f)

module _ {S A B : Type 0} where
  infixl 5 ◌>>=◌ ◌>>◌
  abbrev pub ◌>>=◌ : Op S A → (A → Op S B) → Op S B
  (m >>= k) f = let (a, g) = m f in k a g

  abbrev pub ◌>>◌ : Op S A → Op S B → Op S B
  m >> n = m >>= λ _. n

abbrev pub get : {S : Type 0} → Op S (File S)
get f = (f, f)

-- A call of a method.
abbrev pub call : {S A : Type 0} → (S → A × S) → Op S A
call method f = let (a, d) = method f.disk in (a, record f { disk = d })

abbrev pub set_f_size : {S : Type 0} → ℕ → Op S (Unit {0})
set_f_size n f = (tt, record f { f_size = n })

abbrev pub set_g_size : {S : Type 0} → ℕ → Op S (Unit {0})
set_g_size n f = (tt, record f { g_size = n })

abbrev pub set_offset : {S : Type 0} → ℤ → Op S (Unit {0})
set_offset o f = (tt, record f { offset = o })

abbrev pub advance : {S : Type 0} → ℤ → Op S (Unit {0})
advance n f = (tt, record f { offset = f.offset +ℤ n })

-- `memcpy(page + at, bytes, length)`
abbrev pub overwrite : (at : ℕ) (bytes page : Bytes) → Bytes
overwrite at bytes page = take at page ++ bytes ++ drop (at + length bytes) page

-- `bctbx_clean(page, n)`
abbrev pub clean : ℕ → Bytes → Bytes
clean zero page = page
clean (suc n) [] = []
clean (suc n) (b ∷ page) = 0 ∷ clean n page

abbrev seek_to : {S : Type 0} → ℤ → Op S ℤ
seek_to ret = do set_offset ret; pure ret

-- `whence`
pub data Whence : Type 0 where
  seek_set : Whence
  seek_cur : Whence
  seek_end : Whence
  other : Whence

module _ {S : Type 0} (m : Methods S) where
  -- `bctbx_file_write` behind its flush.
  unfoldable pub write_flushed : Bytes → ℤ → Op S ℤ
  write_flushed buf offset = do
    ret ← call (λ d. m.write_at d buf offset)
    if ret ==ℤ error
        then pure error
        else if is_neg ret
        then pure error
        else (do set_g_size 0; pure ret)

  -- The write that it calls flushes again, which does nothing since `fSize` is 0 by then.
  unfoldable pub flush : Op S ℤ
  flush = do
    f ← get
    if f.f_size == 0 then pure (pos 0) else do
      set_f_size 0
      r ← write_flushed (take f.f_size f.f_page) f.f_page_offset
      if is_neg r then (do set_f_size f.f_size; pure r) else pure r

  unfoldable pub write : Bytes → ℤ → Op S ℤ
  write buf offset = do r ← flush; if is_neg r then pure error else write_flushed buf offset

  unfoldable pub read : ℕ → ℤ → Op S (ℤ × Bytes)
  read count offset = do
    r ← flush
    if is_neg r then pure (error, []) else do
      (ret, bytes) ← call (λ d. m.read_at d count offset)
      pure (if is_neg ret then error else ret, bytes)

  unfoldable pub size : Op S ℤ
  size = do r ← flush; if is_neg r then pure error else call m.file_size

  unfoldable pub sync : Op S ℤ
  sync = do r ← flush; if is_neg r then pure error else call m.sync_file

  unfoldable pub truncate : ℤ → Op S ℤ
  truncate n = do r ← flush; if is_neg r then pure error else call (λ d. m.truncate_file d n)

  unfoldable pub is_encrypted : File S → Bool
  is_encrypted f = elim m.encrypted [ none ↦ false | some test ↦ test f.disk ]

  -- Both pages are cleaned where the VFS encrypts.
  abbrev pub clean_pages : Op S (Unit {0})
  clean_pages f = (
    tt,
    if is_encrypted f
        then record f {
          f_page = clean printf_page_size f.f_page;
          g_page = clean getline_page_size f.g_page;
        }
        else f,
  )

  -- The result, and whether the handle was freed.
  unfoldable pub close : Op S (ℤ × Bool)
  close = do
    r ← flush
    if is_neg r
        then pure (error, false)
        else do clean_pages; ret ← call m.close_file; pure (ret, true)

  -- The switch on `whence`.
  unfoldable pub move : ℤ → Whence → Op S ℤ
  move offset seek_set = seek_to offset
  move offset seek_cur = do f ← get; seek_to (f.offset +ℤ offset)
  move offset seek_end = do n ← size; seek_to (n +ℤ offset)
  move offset other = pure error

  unfoldable pub seek : ℤ → Whence → Op S ℤ
  seek offset whence = do r ← flush; if is_neg r then pure error else move offset whence

  unfoldable pub read2 : ℕ → Op S (ℤ × Bytes)
  read2 count = do
    f ← get
    (ret, bytes) ← read count f.offset
    if ret ==ℤ error then pure (ret, bytes) else (do seek ret seek_cur; pure (ret, bytes))

  unfoldable pub write2 : Bytes → Op S ℤ
  write2 buf = do
    f ← get
    ret ← write buf f.offset
    if ret ==ℤ error then pure ret else (do seek ret seek_cur; pure ret)
