-- ===== src/Vfs/Reachable.antt =====
-- The files that the operations of src/vfs/vfs.c make, from an open on.
use bctoolbox.Common.{
  ℕ, ◌-◌, ◌≡◌, refl, ap, ◌∙◌, inl, inr, false, Option, none, some, arith, ◌==◌, if◌then◌else◌,
  length, drop, Bool-cases,
}
use bctoolbox.Common.Int.{ℤ, pos, pos_part, is_neg, ltb_ℤ}
use bctoolbox.Vfs.Fprintf.{fprintf}
use bctoolbox.Vfs.{
  Bytes, File, Op, Methods, flush, write, read, size, sync, truncate, seek, Whence, read2, write2,
}
use bctoolbox.Vfs.Open.{fresh_file}
use bctoolbox.Vfs.Lines.{
  find_next_line, cached_line, in_page, keep_page, take_line, read_line, generic_get_nxtline,
  get_nxtline, distance, nth_byte,
}
use bctoolbox.Vfs.Invariant.{
  WellFormed, behind, flush-ok, write-ok, read-ok, size-ok, sync-ok, truncate-ok, seek-ok, read2-ok,
  write2-ok, flush-empty,
}
use bctoolbox.Vfs.Invariant.Print.{fprintf-ok}

module _ {S : Type 0} where
  -- The page of fprintf is as it was.
  pub record SamePage (f g : File S) : Type 0 where
    pub page : g.f_page ≡ f.f_page
    pub size : g.f_size ≡ f.f_size

  SamePage-refl : (f : File S) → SamePage f f
  SamePage-refl f = record { page = refl; size = refl }

  SamePage-WellFormed : {f g : File S} → SamePage f g → WellFormed f → f.f_size ≡ 0 → WellFormed g
  SamePage-WellFormed same ok_f empty = record {
    page = ap length same.page ∙ ok_f.page;
    room = omega (arith, same.size);
    aligned = inl (same.size ∙ empty);
  }

  abbrev Answered : File S → Option ((ℤ × Bytes) × File S) → Type 0
  Answered f none = Unit {0}
  Answered f (some (_, g)) = SamePage f g

  cached_line-Answered : (f : File S) (s : Bytes) → Answered f (cached_line f s)
  unfolding cached_line
  cached_line-Answered f s =
      at (find_next_line (drop (distance f.offset f.g_page_offset) f.g_page)) refl
    where
      at :
          (o : Option ℕ)
          → find_next_line (drop (distance f.offset f.g_page_offset) f.g_page) ≡ o
          → Answered f (cached_line f s)
      at (some n) e = rw (e, cached_line, Answered) (record { page = refl; size = refl })
      at none e =
          rw (e, cached_line, Answered)
            (elim (Bool-cases (nth_byte (f.g_size - 1) f.g_page == 4)) [
              | inl ended ↦ rw ended (record { page = refl; size = refl })
              | inr more ↦ rw more tt
            ])

  take_line-SamePage : (n : ℕ) (s : Bytes) (f : File S) → SamePage f (take_line n s f).1
  unfolding take_line
  take_line-SamePage n s f = at (find_next_line s) refl
    where
      at : (o : Option ℕ) → find_next_line s ≡ o → SamePage f (take_line n s f).1
      at (some i) e = rw (e, take_line) (record { page = refl; size = refl })
      at none e = rw (e, take_line) (record { page = refl; size = refl })

  keep_page-SamePage : (k n : ℕ) (s : Bytes) (f : File S) → SamePage f (keep_page k n s f).1
  unfolding keep_page
  keep_page-SamePage k n s f = ground (arith, SamePage-refl f)

  SamePage-trans : {f g h : File S} → SamePage f g → SamePage g h → SamePage f h
  SamePage-trans a b = record { page = b.page ∙ a.page; size = b.size ∙ a.size }

  module _ (m : Methods S) where
    read-SamePage : (n : ℕ) (o : ℤ) (f : File S) → f.f_size ≡ 0 → SamePage f (read m n o f).1
    unfolding read
    read-SamePage n o f empty = rw (flush-empty m f empty) (record { page = refl; size = refl })

    read_line-SamePage :
        (k : ℕ) (s : Bytes) (f : File S) → f.f_size ≡ 0 → SamePage f (read_line m k s f).1
    unfolding read_line
    read_line-SamePage k s f empty =
        elim (Bool-cases (ltb_ℤ (pos 0) (read m (k - 1) f.offset f).0.0)) [
          | inl more ↦ rw more (
              SamePage-trans (read-SamePage (k - 1) f.offset f empty)
                (SamePage-trans (keep_page-SamePage k _ _ _) (take_line-SamePage _ _ _)))
          | inr less ↦ rw less (read-SamePage (k - 1) f.offset f empty)
        ]

    generic_get_nxtline-ok :
        (s : Bytes) (k : ℤ) (f : File S) → WellFormed f → WellFormed (generic_get_nxtline m s k f).1
    unfolding generic_get_nxtline
    generic_get_nxtline-ok s k f ok_f = elim (Bool-cases (ltb_ℤ k (pos 1))) [
      | inl small ↦ rw small ok_f
      | inr fine ↦ rw fine (
          behind _ _ (flush m f) (flush-ok m f ok_f) λ g ok_g empty.
            SamePage-WellFormed
              (answer g empty (if in_page g then cached_line g s else none) (held g)) ok_g empty)
    ]
      where
        held : (g : File S) → Answered g (if in_page g then cached_line g s else none)
        held g = elim (Bool-cases (in_page g)) [
          | inl inside ↦ rw inside (cached_line-Answered g s)
          | inr outside ↦ rw outside tt
        ]

        answer :
            (g : File S)
            → g.f_size ≡ 0
            → (o : Option ((ℤ × Bytes) × File S)) → Answered g o
            → SamePage g
                ((elim o as (λ o. Op S (ℤ × Bytes)) [
                  | some answer ↦ λ _. answer
                  | none ↦ read_line m (pos_part k) s
                ])
                  g).1
        answer g empty none a = read_line-SamePage (pos_part k) s g empty
        answer g empty (some (r, h)) a = a

    get_nxtline-ok :
        (s : Bytes) (k : ℤ) (f : File S)
        → m.get_line ≡ none
        → WellFormed f
        → WellFormed (get_nxtline m s k f).1
    unfolding get_nxtline
    get_nxtline-ok s k f generic ok_f = simp generic (
        behind _ _ (flush m f) (flush-ok m f ok_f)
          λ g ok_g empty. generic_get_nxtline-ok s k g ok_g)

    -- A call on an open file, and the file behind it. A print at another place than the current one
    -- is one whose flush succeeds.
    pub data Step (f : File S) : File S → Type 0 where
      by_write : (buf : Bytes) (o : ℤ) → Step f (write m buf o f).1
      by_write2 : (buf : Bytes) → Step f (write2 m buf f).1
      by_read : (n : ℕ) (o : ℤ) → Step f (read m n o f).1
      by_read2 : (n : ℕ) → Step f (read2 m n f).1
      by_size : Step f (size m f).1
      by_sync : Step f (sync m f).1
      by_truncate : (n : ℤ) → Step f (truncate m n f).1
      by_seek : (o : ℤ) (whence : Whence) → Step f (seek m o whence f).1
      by_print : (text : Option Bytes) → Step f (fprintf m (pos 0) text f).1
      by_print_at :
          (o : ℤ) (text : Option Bytes)
          → is_neg (flush m f).0 ≡ false
          → Step f (fprintf m o text f).1
      by_line : (s : Bytes) (k : ℤ) → Step f (get_nxtline m s k f).1

    pub data Reachable : File S → Type 0 where
      opened : (d : S) → Reachable (fresh_file d)
      step : {f g : File S} → Reachable f → Step f g → Reachable g

    Step-WellFormed : {f g : File S} → m.get_line ≡ none → WellFormed f → Step f g → WellFormed g
    Step-WellFormed {f} generic ok_f (by_write buf o) = write-ok m buf o f ok_f
    Step-WellFormed {f} generic ok_f (by_write2 buf) = write2-ok m buf f ok_f
    Step-WellFormed {f} generic ok_f (by_read n o) = read-ok m n o f ok_f
    Step-WellFormed {f} generic ok_f (by_read2 n) = read2-ok m n f ok_f
    Step-WellFormed {f} generic ok_f by_size = size-ok m f ok_f
    Step-WellFormed {f} generic ok_f by_sync = sync-ok m f ok_f
    Step-WellFormed {f} generic ok_f (by_truncate n) = truncate-ok m n f ok_f
    Step-WellFormed {f} generic ok_f (by_seek o whence) = seek-ok m o whence f ok_f
    Step-WellFormed {f} generic ok_f (by_print text) = fprintf-ok m (pos 0) text f ok_f (inl refl)
    Step-WellFormed {f} generic ok_f (by_print_at o text fine) =
        fprintf-ok m o text f ok_f (inr fine)
    Step-WellFormed {f} generic ok_f (by_line s k) = get_nxtline-ok s k f generic ok_f

    -- Whatever the methods of the VFS do, on every file that the calls reach from an open the page of
    -- fprintf has its 4096 bytes, fewer of them in use, and, unless it is empty, ends at the offset of
    -- the file. The VFS is one with no line reader of its own.
    pub Reachable-WellFormed : {f : File S} → m.get_line ≡ none → Reachable f → WellFormed f
    Reachable-WellFormed generic (opened d) = record {
      page = refl;
      room = omega arith;
      aligned = inl refl;
    }
    Reachable-WellFormed generic (step r s) =
        Step-WellFormed generic (Reachable-WellFormed generic r) s
