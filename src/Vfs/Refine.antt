-- ===== src/Vfs/Refine.antt =====
-- The page of src/vfs/vfs.c cannot be seen from outside: over a VFS that stores what it is given, a
-- file is one text with an offset, to which fprintf adds and from which read takes.
pub mod Print
use bctoolbox.Common.{
  ℕ, suc, ◌+◌, ◌≤◌, ◌<◌, ◌≡◌, refl, sym, ap, ◌∙◌, ◌⊎◌, inl, inr, true, false, some, [], ◌∷◌, ◌++◌,
  arith, ltb, ◌==◌, if◌then◌else◌, length, take, drop, Bool-cases, length-take, length-append,
}
use bctoolbox.Common.Int.{ℤ, pos, ◌+ℤ◌, is_neg, ltb_ℤ, pos_part}
use bctoolbox.Vfs.Fprintf.{append_page, fprintf, print, write_page_and, write_through}
use bctoolbox.Vfs.{Bytes, File, Methods, printf_page_size, overwrite, write_flushed, flush}
use bctoolbox.Vfs.Invariant.{length-overwrite, write-empty}
use bctoolbox.Vfs.Contents.{stored, stored-stored, Stores}

take-append : (xs ys : Bytes) → take (length xs) (xs ++ ys) ≡ xs
take-append [] ys = refl
take-append (x ∷ xs) ys = ap (λ s. x ∷ s) (take-append xs ys)

pub take-overwrite :
    (at : ℕ) (bytes page : Bytes)
    → at ≤ length page
    → take (at + length bytes) (overwrite at bytes page) ≡ take at page ++ bytes
take-overwrite at bytes page h =
    let whole : at + length bytes ≡ length (take at page ++ bytes) =
      omega (arith, length-append (take at page) bytes, length-take at page) in
    ap (λ n. take n (overwrite at bytes page)) whole
    ∙ take-append (take at page ++ bytes) (drop (at + length bytes) page)

module _ {S : Type 0} (m : Methods S) (contents : S → Bytes) (stores : Stores m contents) where
  -- The text of a file: what the VFS holds, with the page over it.
  abbrev pub text_of : File S → Bytes
  text_of f =
      if f.f_size == 0
      then contents f.disk
      else stored (pos_part f.f_page_offset) (take f.f_size f.f_page) (contents f.disk)

  -- The offset is `o`, where the page ends unless it is empty.
  pub record IsAt (f : File S) (o : ℕ) : Type 0 where
    pub page : length f.f_page ≡ printf_page_size
    pub room : f.f_size < printf_page_size
    pub offset : f.offset ≡ pos o
    pub start : ℕ
    pub aligned : (f.f_size ≡ 0) ⊎ ((f.f_page_offset ≡ pos start) × (o ≡ start + f.f_size))

  pub write_flushed-stores :
      (buf : Bytes) (z : ℤ) (o : ℕ) (f : File S)
      → z ≡ pos o
      → write_flushed m buf z f
        ≡ (pos (length buf), record f { disk = (m.write_at f.disk buf z).1; g_size = 0 })
  unfolding write_flushed
  write_flushed-stores buf z o f at =
      let all : (m.write_at f.disk buf z).0 ≡ pos (length buf) =
        rw at (stores.takes_all f.disk buf o) in
      rw all

  pub holds_at :
      (d : S) (buf : Bytes) (z : ℤ) (o : ℕ)
      → z ≡ pos o
      → contents (m.write_at d buf z).1 ≡ stored o buf (contents d)
  holds_at d buf z o at = rw at (stores.holds d buf o)

  -- A file behind a flush.
  abbrev pub flushed : File S → File S
  flushed f = if f.f_size == 0 then f else record f {
    disk = (m.write_at f.disk (take f.f_size f.f_page) f.f_page_offset).1;
    f_size = 0;
    g_size = 0;
  }

  pub flush-flushed :
      (f : File S) (o : ℕ) → IsAt f o → (is_neg (flush m f).0 ≡ false) × ((flush m f).1 ≡ flushed f)
  unfolding flush
  flush-flushed f o at = elim (Bool-cases (f.f_size == 0)) [
    | inl empty ↦ rw empty (refl, refl)
    | inr full ↦ elim at.aligned [
      | inl empty ↦ absurd (ground arith)
      | inr (place, end) ↦
          rw
            (
              full,
              write_flushed-stores (take f.f_size f.f_page) f.f_page_offset at.start
                  (record f { f_size = 0 }) place,
            )
            (refl, refl)
    ]
  ]

  pub flushed-IsAt :
      (f : File S) (o : ℕ)
      → IsAt f o
      → IsAt (flushed f) o × ((flushed f).f_size ≡ 0) × (contents (flushed f).disk ≡ text_of f)
  flushed-IsAt f o at = elim (Bool-cases (f.f_size == 0)) [
    | inl empty ↦ rw empty (at, ground arith, refl)
    | inr full ↦ elim at.aligned [
      | inl empty ↦ absurd (ground arith)
      | inr (place, end) ↦ rw full (
        record {
          page = at.page;
          room = omega arith;
          offset = at.offset;
          start = 0;
          aligned = inl refl;
        },
        refl,
        holds_at f.disk (take f.f_size f.f_page) f.f_page_offset at.start place
            ∙ ap (λ z. stored (pos_part z) (take f.f_size f.f_page) (contents f.disk)) (sym place),
      )
    ]
  ]
