-- ===== src/LinkedList/Unlink.antt =====
-- `bctbx_list_unlink`, `bctbx_list_erase_link` and `bctbx_list_pop_front` of
-- src/containers/list.c.
use bctoolbox.Common.{
  ◌≡◌, refl, ◌∙◌, false, none, some, [], ◌∷◌, ◌++◌, arith, ◌==◌, true, eq→==, if◌then◌else◌,
}
use bctoolbox.LinkedList.{unlink, erase_link, pop_front}
use bctoolbox.LinkedList.Heap.{Ptr, null, node, Heap, write, set_prev, pure}
use bctoolbox.LinkedList.Chain.{
  Cells, has, head, last, Holds, Chain, nil, link, IsList, Touches, Touches-refl, Touches-trans,
  Ensures, ensures, Ensures-feed, Ensures-weaken, Chain-frame, Chain-append, has-append,
  Chain-split_front, Chain-split_back, Chain-Disjoint,
}
use bctoolbox.LinkedList.Relink.{
  not_null, load-done, set_next-done, set_prev-done, free-done, set_next-last, set_prev-first,
}

-- `if (q != NULL) q->prev = before;` at the first element of a chain.
set_prev-head :
    {h : Heap} {old : Ptr} {xs : Cells} (before : Ptr)
    → Chain h null old xs
    → Ensures
        (λ _ g. Chain g null before xs × Touches xs h g)
        ((if head xs null == null then pure tt else set_prev (head xs null) before) h)
set_prev-head before nil = ensures (nil, Touches-refl [] _)
set_prev-head before (link {p} {xs} e out c) = rw (not_null e) (
    Ensures-weaken (set_prev-first before (link e out c))
      λ _ g (c', t). (c', Touches-trans (Touches-refl [] _) t (λ a o. refl) (λ a o. ground arith)))

-- What `bctbx_list_unlink` leaves: the other elements as a list, and the element by itself.
pub record Unlinked (rest all : Cells) (p d : Ptr) (h : Heap) (l : Ptr) (g : Heap) : Type 0 where
  pub list : IsList g l rest
  pub alone : Holds g p (node null null d)
  pub touches : Touches all h g

pub first-Holds :
    {h : Heap} {stop before p d : Ptr} {xs : Cells}
    → Chain h stop before ((p, d) ∷ xs)
    → Holds h p (node (head xs stop) before d)
first-Holds (link e out c) = e

pub first-not-mem :
    {h : Heap} {stop before p d : Ptr} {xs : Cells}
    → Chain h stop before ((p, d) ∷ xs)
    → has p xs ≡ false
first-not-mem (link e out c) = out

module _ {h : Heap} {p d : Ptr} {back : Cells} where
  unlink-first :
      Chain h null null ((p, d) ∷ back)
      → Ensures (Unlinked back ((p, d) ∷ back) p d h) (unlink p p h)
  unfolding unlink
  unlink-first (link e out c) =
      let e1 : Holds (write h p (some (node (head back null) null d))) p
          (node (head back null) null d) =
        record { ne_null = e.ne_null; at = ground arith } in
      let h2 =
        write (write h p (some (node (head back null) null d))) p (some (node null null d)) in
      let e2 : Holds h2 p (node null null d) = record { ne_null = e.ne_null; at = ground arith } in
      let t2 : Touches ((p, d) ∷ []) h h2 = record {
        same = ground arith;
        brk = refl;
        released = refl;
      } in
      rw (not_null e, eq→== p p refl, load-done e, set_prev-done e null, set_next-done e1 null)
        (Ensures-feed (set_prev-head {h = h2} null (Chain-frame c λ a i. ground arith))
          λ _ g (c', t). ensures (record {
            list = record { starts = refl; chain = c' };
            alone = record { ne_null = e.ne_null; at = t.same p out ∙ e2.at };
            touches = Touches-trans t2 t (λ a o. ground arith) (λ a o. ground arith);
          }))

  unlink-middle :
      (q e : Ptr) (front : Cells)
      → Chain h null null ((q, e) ∷ front ++ (p, d) ∷ back)
      → Chain h null (last q front) ((p, d) ∷ back)
      → Ensures
          (Unlinked ((q, e) ∷ front ++ back) ((q, e) ∷ front ++ (p, d) ∷ back) p d h)
          (unlink q p h)
  unfolding unlink
  unlink-middle q e front whole (link at out c) =
      let all : Cells = (q, e) ∷ front in
      let apart = Chain-Disjoint all ((p, d) ∷ back) whole in
      let p-out : has p all ≡ false = ground (arith, apart p) in
      let first-ne : (p == q) ≡ false = ground arith in
      rw (not_null at, first-ne, load-done at)
        (Ensures-feed (set_next-last (head back null) (Chain-split_front all ((p, d) ∷ back) whole))
          λ _ g (fore, t).
            let at1 : Holds g p (node (head back null) (last q front) d) = record {
              ne_null = at.ne_null;
              at = t.same p p-out ∙ at.at;
            } in
            rw (load-done at1) (
              Ensures-feed
                (set_prev-head {h = g} (last q front)
                  (Chain-frame c λ a i. t.same a (ground (arith, apart a))))
                λ _ g2 (hind, t2).
                  let at2 : Holds g2 p (node (head back null) (last q front) d) = record {
                    ne_null = at.ne_null;
                    at = t2.same p out ∙ at1.at;
                  } in
                  let at3 : Holds (write g2 p (some (node null (last q front) d))) p
                      (node null (last q front) d) =
                    record { ne_null = at.ne_null; at = ground arith } in
                  rw (set_next-done at2 null, set_prev-done at3 null)
                    (ensures (record {
                      list = record {
                        starts = refl;
                        chain =
                            Chain-append {xs = all}
                              (Chain-frame fore λ a i. ground (arith, t2.same a, apart a))
                              (Chain-frame hind λ a i. ground arith)
                              (λ a i. ground (arith, apart a));
                      };
                      alone = record { ne_null = at.ne_null; at = ground arith };
                      touches = record {
                        same = λ a o.
                            ground (arith, t.same a, t2.same a, has-append a all ((p, d) ∷ back));
                        brk = t2.brk ∙ t.brk;
                        released = t2.released ∙ t.released;
                      };
                    }))))

module _ {h : Heap} (front : Cells) (p d : Ptr) (back : Cells) {l : Ptr}
    (is : IsList h l (front ++ (p, d) ∷ back)) where
  pub elem-Holds : Holds h p (node (head back null) (last null front) d)
  elem-Holds = first-Holds (Chain-split_back front ((p, d) ∷ back) is.chain)

  -- `bctbx_list_unlink` of the element `p` leaves a list of the others, in order and linked both
  -- ways, and the element with no neighbours; it writes to no other cell.
  pub unlink_lem : Ensures (Unlinked (front ++ back) (front ++ (p, d) ∷ back) p d h) (unlink l p h)
  unlink_lem = rw is.starts (by_front front is.chain)
    where
      by_front :
          (xs : Cells)
          → Chain h null null (xs ++ (p, d) ∷ back)
          → Ensures
              (Unlinked (xs ++ back) (xs ++ (p, d) ∷ back) p d h)
              (unlink (head (xs ++ (p, d) ∷ back) null) p h)
      by_front [] c = unlink-first c
      by_front ((q, e) ∷ xs) c =
          unlink-middle q e xs c (Chain-split_back ((q, e) ∷ xs) ((p, d) ∷ back) c)

  elem-not-mem : has p (front ++ back) ≡ false
  elem-not-mem = ground (
    arith,
    Chain-Disjoint front ((p, d) ∷ back) is.chain p,
    first-not-mem (Chain-split_back front ((p, d) ∷ back) is.chain),
    has-append p front back,
  )

  -- `bctbx_list_erase_link` also frees it.
  pub erase_link_lem :
      Ensures
        (λ l' g.
          IsList g l' (front ++ back) × (g.cell p ≡ none) × Touches (front ++ (p, d) ∷ back) h g)
        (erase_link l p h)
  unfolding erase_link
  erase_link_lem = rw (not_null elem-Holds) (
      Ensures-feed unlink_lem λ l' g u. rw (free-done u.alone) (
        ensures (
          record {
            starts = u.list.starts;
            chain = Chain-frame u.list.chain λ a i. ground (arith, elem-not-mem);
          },
          ground arith,
          record {
            same = λ a o. ground (arith, u.touches.same a, has-append a front ((p, d) ∷ back));
            brk = u.touches.brk;
            released = u.touches.released;
          },
        )))

-- What a list is without its first element, and the data of that element.
abbrev pub rest_of : Cells → Cells
rest_of [] = []
rest_of (x ∷ xs) = xs

abbrev pub first_data : Cells → Ptr
first_data [] = null
first_data ((p, d) ∷ xs) = d

-- Every element of `xs` that is not in `ys` is freed.
abbrev pub Freed : Cells → Cells → Heap → Type 0
Freed xs ys g = (a : Ptr) → has a xs ≡ true → has a ys ≡ false → g.cell a ≡ none

-- `bctbx_list_pop_front` takes the first element out, frees it and hands out its data; of the empty
-- list it hands out NULL.
pub pop_front_lem :
    {h : Heap} {l : Ptr} {xs : Cells}
    → IsList h l xs
    → Ensures
        (λ (l', d) g.
          (d ≡ first_data xs) × IsList g l' (rest_of xs) × Freed xs (rest_of xs) g × Touches xs h g)
        (pop_front l h)
unfolding pop_front
pop_front_lem {h} {l} {xs = []} is =
    rw is.starts
      (ensures (refl, record { starts = refl; chain = nil }, λ a i. cc, Touches-refl [] h))
pop_front_lem {h} {l} {xs = (p, d) ∷ xs} is =
    let at = first-Holds is.chain in
    rw (is.starts, not_null at, load-done at)
      (Ensures-feed (unlink_lem [] p d xs (record { starts = refl; chain = is.chain })) λ l' g u.
        rw (free-done u.alone) (
          ensures (
            refl,
            record {
              starts = u.list.starts;
              chain = Chain-frame u.list.chain λ a i. ground (arith, first-not-mem is.chain);
            },
            λ a i o. ground arith,
            record {
              same = λ a o. ground (arith, u.touches.same a);
              brk = u.touches.brk;
              released = u.touches.released;
            },
          )))
