-- ===== src/LinkedList/Insert/Before.antt =====
-- `bctbx_list_insert` of src/containers/list.c.
use bctoolbox.Common.{
  ℕ, zero, suc, ◌≤◌, ◌<◌, ◌≡◌, refl, false, [], ◌∷◌, ◌++◌, arith, ◌==◌, length, append_assoc, eq→==,
  ne→==,
}
use bctoolbox.LinkedList.Insert.{insert_loop, insert}
use bctoolbox.LinkedList.Heap.{Ptr, null, Heap, done}
use bctoolbox.LinkedList.Chain.{
  Cells, has, head, last, Chain, nil, link, IsList, IsFresh, Allocates, Ensures, ensures,
  Ensures-feed, has-append, Chain-split_back, Chain-split_front,
}
use bctoolbox.LinkedList.Relink.{not_null, load-done}
use bctoolbox.LinkedList.Concat.{
  prepend_lem, new-Holds, fresh-not-mem, Chain-with_new, Allocates-new, new-alloc,
}
use bctoolbox.LinkedList.Unlink.{first-Holds, first-not-mem}
use bctoolbox.LinkedList.Splice.{last-ne_null, link_before-Chain}

-- The loop walks on over elements that are not the one it looks for.
insert_loop-skip :
    (k m : ℕ) (l p d : Ptr) {h : Heap} {before : Ptr} {xs : Cells}
    → Chain h null before xs
    → has p xs ≡ false
    → length xs < k
    → insert_loop k m l p d (head xs null) h ≡ done l h
unfolding insert_loop
insert_loop-skip zero m l p d c out fuel = absurd (omega arith)
insert_loop-skip (suc k) m l p d nil out fuel = refl
insert_loop-skip (suc k) m l p d (link {p = q} e at c) out fuel =
    let other : (q == p) ≡ false = ground arith in
    rw (not_null e, other, load-done e) (insert_loop-skip k m l p d c (ground arith) (omega arith))

rest-Chain :
    {h : Heap} {stop before p d : Ptr} {xs : Cells}
    → Chain h stop before ((p, d) ∷ xs)
    → Chain h stop p xs
rest-Chain (link e out c) = c

module _ {h : Heap} (fresh : IsFresh h) (m l p e d : Ptr) (back : Cells) where
  -- At the element, which is the first of the list or has a predecessor.
  insert_loop-at :
      (k : ℕ) (front : Cells)
      → IsList h l (front ++ (p, e) ∷ back)
      → length back < k
      → 1 ≤ m
      → Ensures
          (λ l' g.
            IsList g l' (front ++ (h.brk, d) ∷ (p, e) ∷ back)
            × Allocates (front ++ (h.brk, d) ∷ (p, e) ∷ back) h g)
          (insert_loop (suc k) m l p d p h)
  unfolding insert_loop
  insert_loop-at k [] is fuel room =
      let at = first-Holds is.chain in
      rw (not_null at, eq→== p p refl, load-done at) (prepend_lem fresh d m is room)
  insert_loop-at k ((q, f) ∷ front) is fuel room =
      let at = first-Holds (Chain-split_back ((q, f) ∷ front) ((p, e) ∷ back) is.chain) in
      let inner = last-ne_null (Chain-split_front ((q, f) ∷ front) ((p, e) ∷ back) is.chain) in
      rw
        (
          not_null at,
          eq→== p p refl,
          load-done at,
          ne→== (last q front) null inner,
          new-alloc fresh d,
        )
        (Ensures-feed
          (link_before-Chain h.brk d ((q, f) ∷ front) p e back (Chain-with_new fresh d is.chain)
            (new-Holds fresh d) (fresh-not-mem fresh d is.chain))
          λ _ g (whole, t).
            let tail =
              rest-Chain (Chain-split_back ((q, f) ∷ front) ((h.brk, d) ∷ (p, e) ∷ back) whole) in
            rw
              (
                load-done (first-Holds tail),
                insert_loop-skip k m l p d (rest-Chain tail) (first-not-mem tail) fuel,
              )
              (ensures (
                record { starts = is.starts; chain = whole },
                Allocates-new fresh d
                    (ground (arith, has-append h.brk ((q, f) ∷ front) ((h.brk, d) ∷ (p, e) ∷ back)))
                    t,
              )))

  -- The elements in front are passed.
  insert_loop-front :
      (k : ℕ) (front passed : Cells)
      → IsList h l (passed ++ (front ++ (p, e) ∷ back))
      → length (front ++ (p, e) ∷ back) < k
      → 1 ≤ m
      → Ensures
          (λ l' g.
            IsList g l' (passed ++ (front ++ (h.brk, d) ∷ (p, e) ∷ back))
            × Allocates (passed ++ (front ++ (h.brk, d) ∷ (p, e) ∷ back)) h g)
          (insert_loop k m l p d (head (front ++ (p, e) ∷ back) null) h)
  unfolding insert_loop
  insert_loop-front zero front passed is fuel room = absurd (omega arith)
  insert_loop-front (suc k) [] passed is fuel room = insert_loop-at k passed is (omega arith) room
  insert_loop-front (suc k) ((q, f) ∷ front) passed is fuel room =
      let here = Chain-split_back passed ((q, f) ∷ (front ++ (p, e) ∷ back)) is.chain in
      let at = first-Holds here in
      let other : (q == p) ≡ false =
        ground (arith, first-not-mem here, has-append q front ((p, e) ∷ back)) in
      rw (not_null at, other, load-done at)
        (rw (append_assoc passed ((q, f) ∷ []) (front ++ (h.brk, d) ∷ (p, e) ∷ back)) at (
          insert_loop-front k front (passed ++ (q, f) ∷ [])
            (rw (append_assoc passed ((q, f) ∷ []) (front ++ (p, e) ∷ back)) is) (omega arith)
            room))

starts-not_null :
    {h : Heap} (front : Cells) (p e : Ptr) (back : Cells)
    → Chain h null null (front ++ (p, e) ∷ back)
    → (head (front ++ (p, e) ∷ back) null == null) ≡ false
starts-not_null [] p e back c = not_null (first-Holds c)
starts-not_null ((q, f) ∷ front) p e back c = not_null (first-Holds c)

-- With enough fuel, `bctbx_list_insert` of data before the element `p` of a list puts one new
-- element there, keeps the others in order, and writes to no other cell.
pub insert_lem :
    (k : ℕ) (l p e d : Ptr) (front back : Cells) {h : Heap}
    → IsFresh h
    → IsList h l (front ++ (p, e) ∷ back)
    → length (front ++ (p, e) ∷ back) < k
    → Ensures
        (λ l' g.
          IsList g l' (front ++ (h.brk, d) ∷ (p, e) ∷ back)
          × Allocates (front ++ (h.brk, d) ∷ (p, e) ∷ back) h g)
        (insert k l p d h)
unfolding insert
insert_lem k l p e d front back {h} fresh is fuel =
    let at = first-Holds (Chain-split_back front ((p, e) ∷ back) is.chain) in
    rw (is.starts, starts-not_null front p e back is.chain, not_null at)
      (insert_loop-front fresh k (head (front ++ (p, e) ∷ back) null) p e d back k front []
        (record { starts = refl; chain = is.chain }) fuel (omega arith))
