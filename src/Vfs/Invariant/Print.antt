-- ===== src/Vfs/Invariant/Print.antt =====
-- The invariant of the page of src/vfs/vfs.c, through `bctbx_file_fprintf`.
use bctoolbox.Common.{
  ◌+◌, ◌<◌, ◌≡◌, refl, ◌∙◌, ◌⊎◌, inl, inr, true, false, Option, none, some, ◌++◌, arith, ltb, ◌==◌,
  if◌then◌else◌, length, take, Bool-cases,
}
use bctoolbox.Common.Int.{ℤ, pos, is_neg, ◌==ℤ◌, ltb_ℤ}
use bctoolbox.Vfs.Fprintf.{append_page, fprintf, print, write_page_and, write_through}
use bctoolbox.Vfs.{
  Bytes, File, Methods, printf_page_size, pure, ◌>>◌, set_f_size, advance, write_flushed, flush,
}
use bctoolbox.Vfs.Flush.{Wrote, refused, wrote, write_flushed-Wrote}
use bctoolbox.Vfs.Invariant.{
  +ℤ-pos_assoc, length-overwrite, WellFormed, WellFormed-empty, Wrote-ok, flush-ok, write-empty,
}
use bctoolbox.Vfs.{printf_page_size}

module _ {S : Type 0} (m : Methods S) where
  append_page-ok :
      (text : Bytes) (f : File S)
      → WellFormed f
      → length text + f.f_size < printf_page_size
      → WellFormed (append_page text f).1
  append_page-ok text f ok_f fits = record {
    page = length-overwrite f.f_size text f.f_page (omega (arith, ok_f.page)) ∙ ok_f.page;
    room = omega arith;
    aligned = inr (elim (Bool-cases (f.f_size == 0)) [
      | inl empty ↦
          let none_yet : f.f_size ≡ 0 = ground arith in
          let whole : f.f_size + length text ≡ length text = omega arith in rw (empty, whole) refl
      | inr full ↦ rw full (elim ok_f.aligned [
        | inl empty ↦ absurd (ground arith)
        | inr at ↦ rw at (+ℤ-pos_assoc f.f_page_offset f.f_size (length text))
      ])
    ]);
  }

  write_page_and-ok :
      (text : Bytes) (f : File S)
      → WellFormed f
      → 0 < f.f_size
      → WellFormed (write_page_and m text f).1
  unfolding write_page_and
  write_page_and-ok text f ok_f full =
      rw
        (write-empty m (take f.f_size f.f_page ++ text) f.f_page_offset (record f { f_size = 0 })
          refl)
        (both (write_flushed-Wrote m _ _ _))
    where
      both :
          {w : ℤ × File S}
          → Wrote (record f { f_size = 0 }) w
          → WellFormed
              ((if is_neg w.0
                  then (do set_f_size f.f_size; pure w.0)
                  else (do advance (pos (length text)); pure (pos (length text))))
                w.1).1
      both refused = record { page = ok_f.page; room = ok_f.room; aligned = ok_f.aligned }
      both wrote = record { page = ok_f.page; room = omega arith; aligned = inl refl }

  write_through-ok :
      (text : Bytes) (f : File S)
      → WellFormed f
      → f.f_size ≡ 0
      → WellFormed (write_through m text f).1
  unfolding write_through
  write_through-ok text f ok_f empty =
      let (ok_g, none_left) = Wrote-ok m (write_flushed-Wrote m text f.offset f) ok_f empty in
      rw (write-empty m text f.offset f empty)
        (elim (Bool-cases (ltb_ℤ (pos 0) (write_flushed m text f.offset f).0)) [
          | inl more ↦ rw more (WellFormed-empty _ _ _ ok_g none_left)
          | inr less ↦ rw less ok_g
        ])

  pub print-ok : (text : Bytes) (f : File S) → WellFormed f → WellFormed (print m text f).1
  unfolding print
  print-ok text f ok_f = elim (Bool-cases (ltb (length text + f.f_size) printf_page_size)) [
    | inl fits ↦ rw fits (append_page-ok text f ok_f (ground arith))
    | inr over ↦ rw over (elim (Bool-cases (ltb 0 f.f_size)) [
      | inl full ↦ rw full (write_page_and-ok text f ok_f (ground arith))
      | inr empty ↦ rw empty (write_through-ok text f ok_f (ground arith))
    ])
  ]

  -- A flush may fail behind an offset of 0 only, where the code does not flush.
  pub fprintf-ok :
      (o : ℤ) (text : Option Bytes) (f : File S)
      → WellFormed f
      → (o ==ℤ pos 0) ≡ true ⊎ is_neg (flush m f).0 ≡ false
      → WellFormed (fprintf m o text f).1
  unfolding fprintf
  fprintf-ok o none f ok_f fine = ok_f
  fprintf-ok o (some text) f ok_f (inl here) = rw here (print-ok text f ok_f)
  fprintf-ok o (some text) f ok_f (inr fine) = elim (Bool-cases (o ==ℤ pos 0)) [
    | inl here ↦ rw here (print-ok text f ok_f)
    | inr away ↦
        let (ok_g, empty) = flush-ok m f ok_f in
        rw away (print-ok text _ (WellFormed-empty _ o _ ok_g (empty fine)))
  ]
