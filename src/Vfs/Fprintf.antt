-- ===== src/Vfs/Fprintf.antt =====
-- `bctbx_file_fprintf` of src/vfs/vfs.c.
use bctoolbox.Common.{◌+◌, Option, none, some, ◌++◌, ltb, ◌==◌, if◌then◌else◌, length, take}
use bctoolbox.Common.Int.{ℤ, pos, ◌+ℤ◌, is_neg, ◌==ℤ◌, ltb_ℤ}
use bctoolbox.Vfs.{
  Bytes, error, printf_page_size, Op, Methods, pure, ◌>>=◌, ◌>>◌, get, set_f_size, set_offset,
  advance, overwrite, flush, write,
}

-- The text goes into the page.
abbrev pub append_page : {S : Type 0} → Bytes → Op S (Unit {0})
append_page text f = (
  tt,
  record f {
    f_page = overwrite f.f_size text f.f_page;
    f_page_offset = if f.f_size == 0 then f.offset else f.f_page_offset;
    offset = f.offset +ℤ pos (length text);
    f_size = f.f_size + length text;
    g_size = 0;
  },
)

module _ {S : Type 0} (m : Methods S) where
  -- The page and the text go to the file at once.
  unfoldable pub write_page_and : Bytes → Op S ℤ
  write_page_and text = do
    f ← get
    set_f_size 0
    r ← write m (take f.f_size f.f_page ++ text) f.f_page_offset
    if is_neg r
        then (do set_f_size f.f_size; pure r)
        else (do advance (pos (length text)); pure (pos (length text)))

  unfoldable pub write_through : Bytes → Op S ℤ
  write_through text = do
    f ← get
    r ← write m text f.offset
    if ltb_ℤ (pos 0) r then (do advance r; pure r) else pure r

  unfoldable pub print : Bytes → Op S ℤ
  print text = do
    f ← get
    if ltb (length text + f.f_size) printf_page_size
        then (do append_page text; pure (pos (length text)))
        else if ltb 0 f.f_size
        then write_page_and text
        else write_through text

  -- `text` is what `bctbx_strdup_vprintf` returns; an offset of 0 stands for the current one.
  unfoldable pub fprintf : ℤ → Option Bytes → Op S ℤ
  fprintf offset none = pure error
  fprintf offset (some text) =
      if offset ==ℤ pos 0 then print text else do flush m; set_offset offset; print text
