-- ===== src/Vfs/Invariant.antt =====
-- The invariant of the page of src/vfs/vfs.c: it has room, and ends at the offset of the file.
pub mod Print
use bctoolbox.Common.{
  ℕ, ◌+◌, ◌≤◌, ◌<◌, ◌≡◌, refl, ◌∙◌, ◌⊎◌, inl, inr, true, false, Option, none, some, ◌++◌, arith,
  ltb, ◌==◌, if◌then◌else◌, length, take, drop, Bool-cases, length-append, length-take, length-drop,
}
use bctoolbox.Common.Int.{ℤ, pos, negsuc, ◌+ℤ◌, is_neg, ◌==ℤ◌, ltb_ℤ}
use bctoolbox.Vfs.Fprintf.{append_page, fprintf, print, write_page_and, write_through}
use bctoolbox.Vfs.{
  Bytes, File, Op, Methods, error, printf_page_size, pure, ◌>>◌, call, set_f_size, advance,
  overwrite, write_flushed, flush, write, read, size, sync, truncate, seek, move, Whence, seek_set,
  seek_cur, seek_end, other, read2, write2,
}
use bctoolbox.Vfs.Flush.{
  Wrote, refused, wrote, Flushed, unchanged, failed, written, write_flushed-Wrote, flush-Flushed,
}

pub +ℤ-pos_assoc : (a : ℤ) (b c : ℕ) → a +ℤ pos b +ℤ pos c ≡ a +ℤ pos (b + c)
+ℤ-pos_assoc (pos a) b c = ground arith
+ℤ-pos_assoc (negsuc a) b c = ground arith

pub length-overwrite :
    (at : ℕ) (bytes page : Bytes)
    → at + length bytes ≤ length page
    → length (overwrite at bytes page) ≡ length page
length-overwrite at bytes page h =
    let parts : length (take at page ++ bytes ++ drop (at + length bytes) page) ≡ length page =
      omega (
        arith,
        length-append (take at page ++ bytes) (drop (at + length bytes) page),
        length-append (take at page) bytes,
        length-take at page,
        length-drop (at + length bytes) page,
      ) in
    parts

module _ {S : Type 0} where
  pub record WellFormed (f : File S) : Type 0 where
    pub page : length f.f_page ≡ printf_page_size
    pub room : f.f_size < printf_page_size
    pub aligned : (f.f_size ≡ 0) ⊎ (f.offset ≡ f.f_page_offset +ℤ pos f.f_size)

  pub Flushed-WellFormed :
      {m : Methods S} {f : File S} {w : ℤ × File S}
      → Flushed m f w
      → WellFormed f
      → WellFormed w.1 × (is_neg w.0 ≡ false → w.1.f_size ≡ 0)
  Flushed-WellFormed (unchanged empty) ok_f = (ok_f, λ h. empty)
  Flushed-WellFormed (failed full done) ok_f =
      (record { page = ok_f.page; room = ok_f.room; aligned = ok_f.aligned }, λ h. cc)
  Flushed-WellFormed (written full done) ok_f =
      (record { page = ok_f.page; room = omega arith; aligned = inl refl }, λ h. refl)

  -- With an empty page any offset will do.
  pub WellFormed-empty :
      {f : File S} (d : S) (o : ℤ) (g : ℕ)
      → WellFormed f
      → f.f_size ≡ 0
      → WellFormed (record f { disk = d; offset = o; g_size = g })
  WellFormed-empty d o g ok_f empty = record {
    page = ok_f.page;
    room = ok_f.room;
    aligned = inl empty;
  }

  -- What an operation does behind a flush that succeeds.
  pub behind :
      {A : Type 0} (e : A) (next : Op S A) (w : ℤ × File S)
      → WellFormed w.1 × (is_neg w.0 ≡ false → w.1.f_size ≡ 0)
      → ((g : File S) → WellFormed g → g.f_size ≡ 0 → WellFormed (next g).1)
      → WellFormed ((if is_neg w.0 then pure e else next) w.1).1
  behind e next w (ok_f, empty) rest = elim (Bool-cases (is_neg w.0)) [
    | inl neg ↦ rw neg ok_f
    | inr fine ↦ rw fine (rest w.1 ok_f (empty fine))
  ]

  module _ (m : Methods S) where
    pub flush-ok :
        (f : File S)
        → WellFormed f
        → WellFormed (flush m f).1 × (is_neg (flush m f).0 ≡ false → (flush m f).1.f_size ≡ 0)
    flush-ok f ok_f = Flushed-WellFormed (flush-Flushed m f) ok_f

    pub Wrote-ok :
        {f : File S} {w : ℤ × File S}
        → Wrote f w
        → WellFormed f
        → f.f_size ≡ 0
        → WellFormed w.1 × (w.1.f_size ≡ 0)
    Wrote-ok refused ok_f empty =
        (record { page = ok_f.page; room = ok_f.room; aligned = inl empty }, empty)
    Wrote-ok wrote ok_f empty =
        (record { page = ok_f.page; room = ok_f.room; aligned = inl empty }, empty)

    pub write-ok :
        (buf : Bytes) (o : ℤ) (f : File S) → WellFormed f → WellFormed (write m buf o f).1
    unfolding write
    write-ok buf o f ok_f =
        behind error (write_flushed m buf o) (flush m f) (flush-ok f ok_f)
          λ g ok_g empty. (Wrote-ok (write_flushed-Wrote m buf o g) ok_g empty).0

    pub read-ok : (n : ℕ) (o : ℤ) (f : File S) → WellFormed f → WellFormed (read m n o f).1
    unfolding read
    read-ok n o f ok_f =
        behind _ _ (flush m f) (flush-ok f ok_f)
          λ g ok_g empty. WellFormed-empty _ g.offset g.g_size ok_g empty

    pub size-ok : (f : File S) → WellFormed f → WellFormed (size m f).1
    unfolding size
    size-ok f ok_f =
        behind _ _ (flush m f) (flush-ok f ok_f)
          λ g ok_g empty. WellFormed-empty _ g.offset g.g_size ok_g empty

    pub sync-ok : (f : File S) → WellFormed f → WellFormed (sync m f).1
    unfolding sync
    sync-ok f ok_f =
        behind _ _ (flush m f) (flush-ok f ok_f)
          λ g ok_g empty. WellFormed-empty _ g.offset g.g_size ok_g empty

    pub truncate-ok : (n : ℤ) (f : File S) → WellFormed f → WellFormed (truncate m n f).1
    unfolding truncate
    truncate-ok n f ok_f =
        behind _ _ (flush m f) (flush-ok f ok_f)
          λ g ok_g empty. WellFormed-empty _ g.offset g.g_size ok_g empty

    pub flush-empty : (f : File S) → f.f_size ≡ 0 → flush m f ≡ (pos 0, f)
    unfolding flush
    flush-empty f empty = rw empty

    pub size-empty : (f : File S) → f.f_size ≡ 0 → size m f ≡ call m.file_size f
    unfolding size
    size-empty f empty = rw (flush-empty f empty)

    pub write-empty :
        (buf : Bytes) (o : ℤ) (f : File S)
        → f.f_size ≡ 0
        → write m buf o f ≡ write_flushed m buf o f
    unfolding write
    write-empty buf o f empty = rw (flush-empty f empty)

    move-ok :
        (o : ℤ) (whence : Whence) (g : File S)
        → WellFormed g
        → g.f_size ≡ 0
        → WellFormed (move m o whence g).1
    unfolding move
    move-ok o seek_set g ok_g empty = WellFormed-empty g.disk o g.g_size ok_g empty
    move-ok o seek_cur g ok_g empty = WellFormed-empty g.disk (g.offset +ℤ o) g.g_size ok_g empty
    move-ok o seek_end g ok_g empty =
        rw (size-empty g empty) (WellFormed-empty _ _ g.g_size ok_g empty)
    move-ok o other g ok_g empty = ok_g

    pub seek-ok :
        (o : ℤ) (whence : Whence) (f : File S) → WellFormed f → WellFormed (seek m o whence f).1
    unfolding seek
    seek-ok o whence f ok_f = behind _ _ (flush m f) (flush-ok f ok_f) (move-ok o whence)

    pub read2-ok : (n : ℕ) (f : File S) → WellFormed f → WellFormed (read2 m n f).1
    unfolding read2
    read2-ok n f ok_f = elim (Bool-cases ((read m n f.offset f).0.0 ==ℤ error)) [
      | inl bad ↦ rw bad (read-ok n f.offset f ok_f)
      | inr fine ↦ rw fine (seek-ok _ seek_cur _ (read-ok n f.offset f ok_f))
    ]

    pub write2-ok : (buf : Bytes) (f : File S) → WellFormed f → WellFormed (write2 m buf f).1
    unfolding write2
    write2-ok buf f ok_f = elim (Bool-cases ((write m buf f.offset f).0 ==ℤ error)) [
      | inl bad ↦ rw bad (write-ok buf f.offset f ok_f)
      | inr fine ↦ rw fine (seek-ok _ seek_cur _ (write-ok buf f.offset f ok_f))
    ]
