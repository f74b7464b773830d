-- ===== src/LinkedList/Concat.antt =====
-- `bctbx_list_concat` of src/containers/list.c, and what is built on it: append and prepend.
use bctoolbox.Common.{
  ℕ, ◌+◌, ◌≤◌, ◌<◌, ◌≡◌, refl, false, some, [], ◌∷◌, ◌++◌, arith, length, append-nil, true, ◌∙◌,
}
use bctoolbox.LinkedList.{new, concat, append, prepend}
use bctoolbox.LinkedList.Heap.{Ptr, null, node, Heap, done, write, alloc}
use bctoolbox.LinkedList.Chain.{
  Cells, IsFresh, Allocates, has, head, last, Holds, Chain, nil, link, IsList, Disjoint, Touches,
  Touches-refl, Touches-trans, Ensures, ensures, Ensures-feed, Ensures-weaken, Chain-frame,
  Chain-append, has-append, unused-not-mem,
}
use bctoolbox.LinkedList.Relink.{not_null, set_next-last, set_prev-first}
use bctoolbox.LinkedList.Walk.{last_loop-last}

module _ {h : Heap} where
  concat-Chain :
      (k : ℕ) {xs ys : Cells}
      → Chain h null null xs
      → Chain h null null ys
      → Disjoint xs ys
      → length xs ≤ k
      → Ensures
          (λ l g. IsList g l (xs ++ ys) × Touches (xs ++ ys) h g)
          (concat k (head xs null) (head ys null) h)
  unfolding concat
  concat-Chain k nil c apart fuel = ensures (record { starts = refl; chain = c }, Touches-refl _ _)
  concat-Chain k (link {p} {d} {xs} e out c) nil apart fuel =
      rw (not_null e, append-nil xs)
        (ensures (record { starts = refl; chain = link e out c }, Touches-refl _ _))
  concat-Chain k (link {p} {d} {xs} e out c) (link {p = q} {d = f} {xs = ys} e' out' c') apart
        fuel =
      rw (not_null e, not_null e', last_loop-last k (link e out c) (omega arith))
        (Ensures-feed (set_next-last q (link e out c)) λ _ g (front, t).
          Ensures-feed
            (set_prev-first (last p xs)
              (Chain-frame (link e' out' c') λ a i. t.same a (ground (arith, apart a))))
            λ _ g' (back, t'). ensures (
              record {
                starts = refl;
                chain =
                    Chain-append (Chain-frame front λ a i. t'.same a (ground (arith, apart a))) back
                      apart;
              },
              Touches-trans t t' (λ a o. ground (arith, has-append a xs ((q, f) ∷ ys)))
                  (λ a o. ground (arith, has-append a xs ((q, f) ∷ ys))),
            ))

  -- With fuel for the elements of the first list, `bctbx_list_concat` of two lists that share no
  -- element links the second behind the first: the result holds the elements of both, in order and
  -- linked both ways, and no other cell is written.
  pub concat-append :
      (k : ℕ) {left right : Ptr} {xs ys : Cells}
      → IsList h left xs
      → IsList h right ys
      → Disjoint xs ys
      → length xs ≤ k
      → Ensures (λ l g. IsList g l (xs ++ ys) × Touches (xs ++ ys) h g) (concat k left right h)
  concat-append k is is' apart fuel =
      rw (is.starts, is'.starts) (concat-Chain k is.chain is'.chain apart fuel)

module _ {h : Heap} (fresh : IsFresh h) (d : Ptr) where
  -- The heap after `bctbx_list_new`.
  abbrev pub with_new : Heap
  with_new = record (write h h.brk (some (node null null d))) { brk = h.brk + 1 }

  pub fresh-not-mem :
      {stop before : Ptr} {xs : Cells} → Chain h stop before xs → has h.brk xs ≡ false
  fresh-not-mem c = unused-not-mem h.brk c (fresh.unused h.brk (omega arith))

  pub Chain-with_new :
      {stop before : Ptr} {xs : Cells} → Chain h stop before xs → Chain with_new stop before xs
  Chain-with_new c = Chain-frame c λ a i. ground (arith, fresh-not-mem c)

  pub new-alloc : new d h ≡ done h.brk with_new
  unfolding new alloc
  new-alloc = refl

  pub new-Holds : Holds with_new h.brk (node null null d)
  new-Holds = record { ne_null = omega (arith, fresh.brk_pos); at = ground arith }

  -- `bctbx_list_new` makes a list of one element.
  pub IsList-new : IsList with_new h.brk ((h.brk, d) ∷ [])
  IsList-new = record { starts = refl; chain = link new-Holds refl nil }

  pub Allocates-new :
      {zs : Cells} {g : Heap} → has h.brk zs ≡ true → Touches zs with_new g → Allocates zs h g
  Allocates-new i t = record {
    same = λ a o. t.same a o ∙ ground arith;
    brk = t.brk;
    released = t.released;
  }

  -- `bctbx_list_append` puts one new element with the data behind those of the list.
  pub append_lem :
      (k : ℕ) {l : Ptr} {xs : Cells}
      → IsList h l xs
      → length xs ≤ k
      → Ensures
          (λ l' g. IsList g l' (xs ++ (h.brk, d) ∷ []) × Allocates (xs ++ (h.brk, d) ∷ []) h g)
          (append k l d h)
  unfolding append new alloc
  append_lem k {l} {xs} is fuel =
      Ensures-weaken
        (concat-append k {left = l} {right = h.brk}
          (record { starts = is.starts; chain = Chain-with_new is.chain }) IsList-new
          (λ a i. ground (arith, fresh-not-mem is.chain)) fuel)
        λ l' g (is', t).
          (is', Allocates-new (ground (arith, has-append h.brk xs ((h.brk, d) ∷ []))) t)

  -- `bctbx_list_prepend` puts it in front.
  pub prepend_lem :
      (k : ℕ) {l : Ptr} {xs : Cells}
      → IsList h l xs
      → 1 ≤ k
      → Ensures
          (λ l' g. IsList g l' ((h.brk, d) ∷ xs) × Allocates ((h.brk, d) ∷ xs) h g)
          (prepend k l d h)
  unfolding prepend new alloc
  prepend_lem k {l} {xs} is fuel =
      Ensures-weaken
        (concat-append k {left = h.brk} {right = l} IsList-new
          (record { starts = is.starts; chain = Chain-with_new is.chain })
          (λ a i. ground (arith, fresh-not-mem is.chain)) fuel)
        λ l' g (is', t). (is', Allocates-new (ground arith) t)

-- The allocator stays ahead of every list after an operation that allocates.
pub Allocates-IsFresh :
    {xs : Cells} {h g : Heap}
    → IsFresh h
    → Allocates xs h g
    → ((a : Ptr) → h.brk < a → has a xs ≡ false)
    → IsFresh g
Allocates-IsFresh fresh t below = record {
  brk_pos = omega (arith, t.brk);
  unused = λ a i. t.same a (below a (omega (arith, t.brk))) ∙ fresh.unused a (omega (arith, t.brk));
}
