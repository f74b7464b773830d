-- ===== src/Vfs/Refine/Print.antt =====
-- The text of a file of src/vfs/vfs.c through `bctbx_file_fprintf`.
use bctoolbox.Common.{
  ℕ, suc, ◌+◌, ◌<◌, ◌≡◌, refl, sym, ap, ◌∙◌, inl, inr, true, false, some, [], ◌∷◌, ◌++◌, arith, ltb,
  ◌==◌, if◌then◌else◌, length, take, Bool-cases, length-take,
}
use bctoolbox.Common.Int.{ℤ, pos, ◌+ℤ◌, ltb_ℤ, pos_part}
use bctoolbox.Vfs.Fprintf.{append_page, fprintf, print, write_page_and, write_through}
use bctoolbox.Vfs.{Bytes, File, Methods, printf_page_size, overwrite}
use bctoolbox.Vfs.Invariant.{length-overwrite, write-empty}
use bctoolbox.Vfs.Contents.{stored, stored-stored, Stores}
use bctoolbox.Vfs.Refine.{take-overwrite, text_of, IsAt, write_flushed-stores, holds_at}

module _ {S : Type 0} (m : Methods S) (contents : S → Bytes) (stores : Stores m contents) where
  extend :
      (f : File S) (o : ℕ) (text : Bytes)
      → IsAt m contents stores f o
      → (f.f_size == 0) ≡ false
      → stored (pos_part f.f_page_offset) (take f.f_size f.f_page ++ text) (contents f.disk)
        ≡ stored o text (text_of m contents stores f)
  extend f o text at full = elim at.aligned [
    | inl empty ↦ absurd (ground arith)
    | inr (place, end) ↦
        let first : pos_part f.f_page_offset ≡ at.start = ap pos_part place in
        let next : pos_part f.f_page_offset + length (take f.f_size f.f_page) ≡ o =
          omega (arith, length-take f.f_size f.f_page, at.page, at.room) in
        rw full (
          sym (
            ap
              (λ n.
                stored n text
                  (stored (pos_part f.f_page_offset) (take f.f_size f.f_page) (contents f.disk)))
              (sym next)
            ∙ stored-stored (pos_part f.f_page_offset) (take f.f_size f.f_page) text
                (contents f.disk)))
  ]

  -- What a print does to a file at `o`.
  pub record Printed (f : File S) (o : ℕ) (text : Bytes) (w : ℤ × File S) : Type 0 where
    pub count : w.0 ≡ pos (length text)
    pub next : IsAt m contents stores w.1 (o + length text)
    pub holds : text_of m contents stores w.1 ≡ stored o text (text_of m contents stores f)

  moved : (f : File S) (o n : ℕ) → f.offset ≡ pos o → f.offset +ℤ pos n ≡ pos (o + n)
  moved f o n at = ap (λ z. z +ℤ pos n) at ∙ ground arith

  append_page-holds :
      (f : File S) (o : ℕ) (text : Bytes)
      → IsAt m contents stores f o
      → text_of m contents stores (append_page text f).1
        ≡ stored o text (text_of m contents stores f)
  append_page-holds f o text at = elim (Bool-cases (f.f_size == 0)) [
    | inl empty ↦ from_empty text empty
    | inr full ↦
        let still : (f.f_size + length text == 0) ≡ false = ground arith in
        let kept = ap (λ s. stored (pos_part f.f_page_offset) s (contents f.disk)) (fits text) in
        rw (still, full) (kept ∙ rw full at (extend f o text at full))
  ]
    where
      fits :
          (text : Bytes)
          → take (f.f_size + length text) (overwrite f.f_size text f.f_page)
            ≡ take f.f_size f.f_page ++ text
      fits text = take-overwrite f.f_size text f.f_page (omega (arith, at.page, at.room))

      from_empty :
          (text : Bytes)
          → (f.f_size == 0) ≡ true
          → text_of m contents stores (append_page text f).1
            ≡ stored o text (text_of m contents stores f)
      from_empty [] empty =
          let still : (f.f_size + 0 == 0) ≡ true = ground arith in rw (still, empty) refl
      from_empty (x ∷ t) empty =
          let more : (f.f_size + suc (length t) == 0) ≡ false = ground arith in
          let none_yet : f.f_size ≡ 0 = ground arith in
          let first : pos_part f.offset ≡ o = ap pos_part at.offset in
          rw (more, empty)
            (ap (λ s. stored (pos_part f.offset) s (contents f.disk))
                (fits (x ∷ t) ∙ ap (λ n. take n f.f_page ++ x ∷ t) none_yet)
              ∙ ap (λ n. stored n (x ∷ t) (contents f.disk)) first)

  append_page-Printed :
      (f : File S) (o : ℕ) (text : Bytes)
      → IsAt m contents stores f o
      → length text + f.f_size < printf_page_size
      → Printed f o text (pos (length text), (append_page text f).1)
  append_page-Printed f o text at fits = record {
    count = refl;
    next = record {
      page = length-overwrite f.f_size text f.f_page (omega (arith, at.page)) ∙ at.page;
      room = omega arith;
      offset = moved f o (length text) at.offset;
      start = if f.f_size == 0 then o else at.start;
      aligned = elim (Bool-cases (f.f_size == 0)) [
        | inl empty ↦ rw empty (inr (at.offset, ground arith))
        | inr full ↦ rw full (elim at.aligned [
          | inl empty ↦ absurd (ground arith)
          | inr (place, end) ↦ inr (place, omega arith)
        ])
      ];
    };
    holds = append_page-holds f o text at;
  }

  write_page_and-Printed :
      (f : File S) (o : ℕ) (text : Bytes)
      → IsAt m contents stores f o
      → (f.f_size == 0) ≡ false
      → Printed f o text (write_page_and m text f)
  unfolding write_page_and
  write_page_and-Printed f o text at full = elim at.aligned [
    | inl empty ↦ absurd (ground arith)
    | inr (place, end) ↦
        rw
          (
            write-empty m (take f.f_size f.f_page ++ text) f.f_page_offset (record f { f_size = 0 })
                refl,
            write_flushed-stores m contents stores (take f.f_size f.f_page ++ text) f.f_page_offset
                at.start (record f { f_size = 0 }) place,
          )
          (record {
            count = refl;
            next = record {
              page = at.page;
              room = omega arith;
              offset = moved f o (length text) at.offset;
              start = 0;
              aligned = inl refl;
            };
            holds =
                holds_at m contents stores f.disk (take f.f_size f.f_page ++ text) f.f_page_offset
                  at.start place
                ∙ ap (λ z. stored (pos_part z) (take f.f_size f.f_page ++ text) (contents f.disk))
                    (sym place)
                ∙ extend f o text at full;
          })
  ]

  write_through-Printed :
      (f : File S) (o : ℕ) (text : Bytes)
      → IsAt m contents stores f o
      → f.f_size ≡ 0
      → 0 < length text
      → Printed f o text (write_through m text f)
  unfolding write_through
  write_through-Printed f o text at empty more =
      let some_text : ltb_ℤ (pos 0) (pos (length text)) ≡ true = ground arith in
      rw
        (
          write-empty m text f.offset f empty,
          write_flushed-stores m contents stores text f.offset o f at.offset,
          some_text,
        )
        (record {
          count = refl;
          next = record {
            page = at.page;
            room = at.room;
            offset = moved f o (length text) at.offset;
            start = 0;
            aligned = inl empty;
          };
          holds = rw empty (holds_at m contents stores f.disk text f.offset o at.offset);
        })

  -- Over a VFS that stores, `bctbx_file_fprintf` at the current offset returns the length of the
  -- text, puts it into the text of the file at the offset, and moves the offset to its end: whether
  -- the page takes it, or goes to the VFS with it, or it goes there by itself.
  pub print-Printed :
      (f : File S) (o : ℕ) (text : Bytes)
      → IsAt m contents stores f o
      → Printed f o text (fprintf m (pos 0) (some text) f)
  unfolding fprintf print
  print-Printed f o text at = elim (Bool-cases (ltb (length text + f.f_size) printf_page_size)) [
    | inl fits ↦ rw fits (append_page-Printed f o text at (ground arith))
    | inr over ↦ rw over (elim (Bool-cases (ltb 0 f.f_size)) [
      | inl full ↦ rw full (write_page_and-Printed f o text at (ground arith))
      | inr empty ↦ rw empty (write_through-Printed f o text at (ground arith) (ground arith))
    ])
  ]
