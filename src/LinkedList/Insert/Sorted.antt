-- ===== src/LinkedList/Insert/Sorted.antt =====
-- `bctbx_list_insert_sorted` of src/containers/list.c.
use bctoolbox.Common.{
  ℕ, zero, suc, ◌<◌, ◌≡◌, ◌≢◌, inl, inr, refl, false, true, [], ◌∷◌, ◌++◌, arith, ◌==◌, length,
  if◌then◌else◌, Bool-cases, append-nil, append_assoc, ne→==,
}
use bctoolbox.LinkedList.{Compare, at_most_zero}
use bctoolbox.LinkedList.Insert.{insert_sorted_loop, insert_sorted}
use bctoolbox.LinkedList.Heap.{Ptr, null, node, Heap}
use bctoolbox.LinkedList.Chain.{
  Cells, has, head, last, Holds, Chain, nil, IsList, IsFresh, Allocates, Touches, Ensures, ensures,
  Ensures-feed, Ensures-weaken, Chain-split_back, Chain-split_front, last-append,
}
use bctoolbox.LinkedList.Relink.{not_null, load-done}
use bctoolbox.LinkedList.Concat.{
  append_lem, new-alloc, new-Holds, fresh-not-mem, Chain-with_new, Allocates-new,
}
use bctoolbox.LinkedList.Unlink.{first-Holds}
use bctoolbox.LinkedList.Splice.{last-ne_null, link_after-Chain, link_before-Chain}

-- The new cell goes before the first whose data the new data do not exceed.
unfoldable pub inserted : Compare → (d item : Ptr) → Cells → Cells
inserted compare d item [] = (item, d) ∷ []
inserted compare d item ((p, e) ∷ xs) =
    if at_most_zero (compare d e)
    then (item, d) ∷ (p, e) ∷ xs
    else (p, e) ∷ inserted compare d item xs

-- Each element is at most the next one.
abbrev pub IsSorted : Compare → Cells → Type 0
IsSorted compare [] = Unit
IsSorted compare ((p, d) ∷ []) = Unit
IsSorted compare ((p, d) ∷ (q, e) ∷ xs) =
    (at_most_zero (compare d e) ≡ true) × IsSorted compare ((q, e) ∷ xs)

-- Of two data pointers one is at most the other.
abbrev pub IsTotal : Compare → Type 0
IsTotal compare =
    (a b : Ptr) → at_most_zero (compare a b) ≡ false → at_most_zero (compare b a) ≡ true

inserted-IsSorted :
    (compare : Compare) (d item : Ptr) (xs : Cells)
    → IsTotal compare
    → IsSorted compare xs
    → IsSorted compare (inserted compare d item xs)
unfolding inserted
inserted-IsSorted compare d item [] total s = tt
inserted-IsSorted compare d item ((p, e) ∷ []) total s = ground (arith, total d e)
inserted-IsSorted compare d item ((p, e) ∷ (q, f) ∷ xs) total s =
    ground (arith, total d e, inserted-IsSorted compare d item ((q, f) ∷ xs) total)

has-inserted :
    (compare : Compare) (d item : Ptr) (xs : Cells) → has item (inserted compare d item xs) ≡ true
unfolding inserted
has-inserted compare d item [] = ground arith
has-inserted compare d item ((p, e) ∷ xs) = ground (arith, has-inserted compare d item xs)

-- The head that the loop returns when it has linked the new element.
head_after :
    {h : Heap} (item d : Ptr) (front : Cells) (p e : Ptr) (back : Cells)
    → Chain h null null (front ++ (p, e) ∷ back)
    → (if last null front == null then item else head (front ++ (p, e) ∷ back) null)
      ≡ head (front ++ (item, d) ∷ (p, e) ∷ back) null
head_after item d [] p e back c = refl
head_after item d ((q, f) ∷ front) p e back c = rw (
    ne→== (last q front) null (last-ne_null (Chain-split_front ((q, f) ∷ front) ((p, e) ∷ back) c)))

module _ (compare : Compare) (d item : Ptr) where
  insert_sorted_loop-inserted :
      (k : ℕ) (rest front : Cells) {h : Heap}
      → Chain h null null (front ++ rest)
      → Holds h item (node null null d)
      → has item (front ++ rest) ≡ false
      → (front ++ rest) ≢ []
      → length rest < k
      → Ensures
          (λ l g.
            IsList g l (front ++ inserted compare d item rest)
            × Touches (front ++ inserted compare d item rest) h g)
          (insert_sorted_loop k compare d item
            (head (front ++ rest) null)
            (last null front)
            (head rest null)
            h)
  unfolding insert_sorted_loop inserted
  insert_sorted_loop-inserted zero rest front c new out some_elem fuel = absurd (omega arith)
  insert_sorted_loop-inserted (suc k) [] [] c new out some_elem fuel = absurd (some_elem refl)
  insert_sorted_loop-inserted (suc k) [] ((q, e) ∷ front) c new out some_elem fuel =
      let fore = rw (append-nil ((q, e) ∷ front)) at c in
      Ensures-feed (link_after-Chain item d q e front fore new (rw (append-nil front) at out))
        λ _ g (whole, t). ensures (record { starts = refl; chain = whole }, t)
  insert_sorted_loop-inserted (suc k) ((p, e) ∷ back) front {h} c new out some_elem fuel =
      let at = first-Holds (Chain-split_back front ((p, e) ∷ back) c) in
      rw (not_null at, load-done at)
        (elim (Bool-cases (at_most_zero (compare d e))) [
          | inl before ↦ rw before (
              Ensures-feed (link_before-Chain item d front p e back c new out) λ _ g (whole, t).
                ensures (record { starts = head_after item d front p e back c; chain = whole }, t))
          | inr beyond ↦ rw beyond (
              rw
                (
                  append_assoc front ((p, e) ∷ []) back,
                  append_assoc front ((p, e) ∷ []) (inserted compare d item back),
                  last-append null front ((p, e) ∷ []),
                )
                at
                (insert_sorted_loop-inserted k back (front ++ (p, e) ∷ []) {h = h}
                  (rw (append_assoc front ((p, e) ∷ []) back) c) new
                  (rw (append_assoc front ((p, e) ∷ []) back) out)
                  (rw (append_assoc front ((p, e) ∷ []) back) some_elem) (omega arith)))
        ])

-- In a memory where the addresses still to be handed out are free, with enough fuel and a total
-- comparison, on a sorted list: `bctbx_list_insert_sorted` puts one new element with the data before
-- the first whose data they do not exceed, the list stays sorted and keeps its elements in order,
-- and no other cell is written.
pub insert_sorted-inserted :
    (k : ℕ) (compare : Compare) (d : Ptr) {h : Heap} {l : Ptr} {xs : Cells}
    → IsFresh h
    → IsTotal compare
    → IsList h l xs
    → IsSorted compare xs
    → length xs < k
    → Ensures
        (λ l' g.
          IsList g l' (inserted compare d h.brk xs)
          × IsSorted compare (inserted compare d h.brk xs)
          × Allocates (inserted compare d h.brk xs) h g)
        (insert_sorted k compare l d h)
unfolding insert_sorted inserted
insert_sorted-inserted k compare d {h} {l} {xs = []} fresh total is s fuel = rw is.starts (
    Ensures-weaken
      (append_lem fresh d k {xs = []} (record { starts = refl; chain = nil }) (omega arith))
      λ l' g (list, t). (list, tt, t))
insert_sorted-inserted k compare d {h} {l} {xs = (p, e) ∷ xs} fresh total is s fuel =
    rw (is.starts, not_null (first-Holds is.chain), new-alloc fresh d)
      (Ensures-weaken
        (insert_sorted_loop-inserted compare d h.brk k ((p, e) ∷ xs) []
          (Chain-with_new fresh d is.chain) (new-Holds fresh d) (fresh-not-mem fresh d is.chain)
          (λ eq. cc) fuel)
        λ l' g (list, t). (
          list,
          inserted-IsSorted compare d h.brk ((p, e) ∷ xs) total s,
          Allocates-new fresh d (has-inserted compare d h.brk ((p, e) ∷ xs)) t,
        ))
