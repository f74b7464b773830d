-- ===== src/Vfs/Session.antt =====
-- Prints and reads of a file of src/vfs/vfs.c in a row.
use bctoolbox.Common.{
  ℕ, ◌+◌, ◌≡◌, refl, ap, ◌∙◌, inl, some, List, [], ◌∷◌, ◌++◌, arith, length, take, drop,
  length-append, eq→==,
}
use bctoolbox.Common.Int.{pos}
use bctoolbox.Vfs.Fprintf.{fprintf}
use bctoolbox.Vfs.{Bytes, File, Op, Methods, pure, ◌>>◌, flush, read}
use bctoolbox.Vfs.Open.{fresh_file}
use bctoolbox.Vfs.Contents.{stored, stored-stored, Stores}
use bctoolbox.Vfs.Refine.{text_of, IsAt, flushed, flush-flushed, flushed-IsAt}
use bctoolbox.Vfs.Refine.Print.{print-Printed}

-- One text behind the other.
abbrev pub joined : List Bytes → Bytes
joined [] = []
joined (t ∷ ts) = t ++ joined ts

-- A caller that prints each text at the current offset.
unfoldable pub print_all : {S : Type 0} → Methods S → List Bytes → Op S (Unit {0})
print_all m [] = pure tt
print_all m (t ∷ ts) = do fprintf m (pos 0) (some t); print_all m ts

module _ {S : Type 0} (m : Methods S) (contents : S → Bytes) (stores : Stores m contents) where
  print_all-text :
      (ts : List Bytes) (f : File S) (o : ℕ)
      → IsAt m contents stores f o
      → IsAt m contents stores (print_all m ts f).1 (o + length (joined ts))
        × (text_of m contents stores (print_all m ts f).1
            ≡ stored o (joined ts) (text_of m contents stores f))
  unfolding print_all
  print_all-text [] f o at = let e : o + 0 ≡ o = omega arith in rw e (at, refl)
  print_all-text (t ∷ ts) f o at =
      let p = print-Printed m contents stores f o t at in
      let (next, text) = print_all-text ts _ _ p.next in
      let e : o + length t + length (joined ts) ≡ o + length (t ++ joined ts) =
        omega (arith, length-append t (joined ts)) in
      (
        rw e at next,
        text
            ∙ ap (stored (o + length t) (joined ts)) p.holds
            ∙ stored-stored o t (joined ts) (text_of m contents stores f),
      )

  -- Over a VFS that stores, texts printed one by one from the open on, in pages or not, are in the
  -- VFS behind the flush that follows, one behind the other from the start of the file; what was
  -- there beyond them stays.
  pub print_all-flush :
      (ts : List Bytes) (d : S)
      → contents (flush m (print_all m ts (fresh_file d)).1).1.disk
        ≡ stored 0 (joined ts) (contents d)
  print_all-flush ts d =
      let (at, text) = print_all-text ts (fresh_file d) 0 (record {
        page = refl;
        room = omega arith;
        offset = refl;
        start = 0;
        aligned = inl refl;
      }) in
      let g = (print_all m ts (fresh_file d)).1 in
      ap (λ f. contents f.disk) (flush-flushed m contents stores g _ at).1
      ∙ (flushed-IsAt m contents stores g _ at).2
      ∙ text

  -- Over a VFS that stores, `bctbx_file_read` gives what the text of the file has at the offset, the
  -- bytes that are still in the page included, and changes neither the text nor the offset.
  pub read-text :
      (f : File S) (o n p : ℕ)
      → IsAt m contents stores f o
      → ((read m n (pos p) f).0 ≡ (
        pos (length (take n (drop p (text_of m contents stores f)))),
        take n (drop p (text_of m contents stores f)),
      ))
        × IsAt m contents stores (read m n (pos p) f).1 o
        × (text_of m contents stores (read m n (pos p) f).1 ≡ text_of m contents stores f)
  unfolding read
  read-text f o n p at =
      let (fine, state) = flush-flushed m contents stores f o at in
      let (at_g, empty, text) = flushed-IsAt m contents stores f o at in
      rw (fine, state)
        (
          rw (stores.gives (flushed m contents stores f).disk n p)
              (ap (λ s. (pos (length (take n (drop p s))), take n (drop p s))) text),
          record {
            page = at_g.page;
            room = at_g.room;
            offset = at_g.offset;
            start = 0;
            aligned = inl empty;
          },
          rw (eq→== (flushed m contents stores f).f_size 0 empty)
              (stores.keeps (flushed m contents stores f).disk n p ∙ text),
        )
