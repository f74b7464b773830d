-- ===== src/LinkedList/Splice.antt =====
-- The relinking that `bctbx_list_insert_sorted` and `bctbx_list_insert` of src/containers/list.c
-- share: a new element goes before one of the list.
use bctoolbox.Common.{
  ◌≡◌, ◌≢◌, refl, ◌∙◌, false, some, [], ◌∷◌, ◌++◌, arith, ◌==◌, if◌then◌else◌, ne→==,
}
use bctoolbox.LinkedList.Insert.{link_before, link_after}
use bctoolbox.LinkedList.Heap.{Ptr, null, node, Heap, write, pure, set_next}
use bctoolbox.LinkedList.Chain.{
  Cells, has, head, last, Holds, Chain, nil, link, Touches, Touches-refl, Ensures, ensures,
  Ensures-feed, Ensures-weaken, Chain-frame, Chain-append, has-append, Chain-split_front,
  Chain-split_back, Chain-Disjoint,
}
use bctoolbox.LinkedList.Relink.{
  load-done, set_next-done, set_prev-done, set_next-last, set_prev-first,
}
use bctoolbox.LinkedList.Unlink.{first-Holds}

pub last-ne_null :
    {h : Heap} {stop before p d : Ptr} {xs : Cells}
    → Chain h stop before ((p, d) ∷ xs)
    → last p xs ≢ null
last-ne_null (link e out nil) = e.ne_null
last-ne_null (link e out (link e' out' c)) = last-ne_null (link e' out' c)

-- `if (q != NULL) q->next = next;` at the last element of a chain.
set_next-end :
    {h : Heap} {old : Ptr} {xs : Cells} (next : Ptr)
    → Chain h old null xs
    → Ensures
        (λ _ g. Chain g next null xs × Touches xs h g)
        ((if last null xs == null then pure tt else set_next (last null xs) next) h)
set_next-end next nil = ensures (nil, Touches-refl [] _)
set_next-end next (link {p} {d} {xs} e out c) =
    rw (ne→== (last p xs) null (last-ne_null (link e out c))) (set_next-last next (link e out c))

abbrev pub spliced : (item x : Ptr) (front : Cells) (p d : Ptr) (back : Cells) → Cells
spliced item x front p d back = front ++ (item, x) ∷ (p, d) ∷ back

module _ {h : Heap} (item x : Ptr) (front : Cells) (p d : Ptr) (back : Cells) where
  -- The new element, which stands alone and outside the list, comes between `front` and `p`.
  pub link_before-Chain :
      {a b : Ptr}
      → Chain h null null (front ++ (p, d) ∷ back)
      → Holds h item (node a b x)
      → has item (front ++ (p, d) ∷ back) ≡ false
      → Ensures
          (λ _ g.
            Chain g null null (spliced item x front p d back)
            × Touches (spliced item x front p d back) h g)
          (link_before item p h)
  unfolding link_before
  link_before-Chain {a} {b} whole new out =
      let at = first-Holds (Chain-split_back front ((p, d) ∷ back) whole) in
      let h1 = write h item (some (node a (last null front) x)) in
      let h2 = write h1 item (some (node p (last null front) x)) in
      let new1 : Holds h1 item (node a (last null front) x) = record {
        ne_null = new.ne_null;
        at = ground arith;
      } in
      let outs : (has item front ≡ false) × (has item ((p, d) ∷ back) ≡ false) =
        ground (arith, has-append item front ((p, d) ∷ back)) in
      let at2 : Holds h2 p (node (head back null) (last null front) d) = record {
        ne_null = at.ne_null;
        at = ground arith;
      } in
      let apart = Chain-Disjoint front ((p, d) ∷ back) whole in
      rw (load-done at, set_prev-done new (last null front), set_next-done new1 p, load-done at2)
        (Ensures-feed
          (set_next-end {h = h2} item
            (Chain-frame (Chain-split_front front ((p, d) ∷ back) whole) λ c i. ground arith))
          λ _ g (fore, t).
            Ensures-weaken
              (set_prev-first {h = g} item (
                Chain-frame (Chain-split_back front ((p, d) ∷ back) whole)
                  λ c i. ground (arith, t.same c, apart c)))
              λ _ g2 (hind, t2).
                let new3 : Holds g2 item (node p (last null front) x) = record {
                  ne_null = new.ne_null;
                  at = t2.same item (ground arith) ∙ t.same item outs.0 ∙ ground arith;
                } in
                (
                  Chain-append (Chain-frame fore λ c i. ground (arith, t2.same c, apart c))
                      (link new3 outs.1 hind) (λ c i. ground (arith, apart c)),
                  record {
                    same = λ c o. ground (
                      arith,
                      t2.same c,
                      t.same c,
                      has-append c front ((item, x) ∷ (p, d) ∷ back),
                    );
                    brk = t2.brk ∙ t.brk;
                    released = t2.released ∙ t.released;
                  },
                ))

-- A new element, which stands alone and outside the list, comes behind its last one.
pub link_after-Chain :
    {h : Heap} (item x q e : Ptr) (front : Cells)
    → Chain h null null ((q, e) ∷ front)
    → Holds h item (node null null x)
    → has item ((q, e) ∷ front) ≡ false
    → Ensures
        (λ _ g.
          Chain g null null ((q, e) ∷ front ++ (item, x) ∷ [])
          × Touches ((q, e) ∷ front ++ (item, x) ∷ []) h g)
        (link_after (last q front) item h)
unfolding link_after
link_after-Chain item x q e front c new out = Ensures-feed (set_next-last item c) λ _ g (fore, t).
    let new1 : Holds g item (node null null x) = record {
      ne_null = new.ne_null;
      at = t.same item out ∙ new.at;
    } in
    rw (set_prev-done new1 (last q front)) (
      ensures (
        Chain-append {xs = (q, e) ∷ front} (Chain-frame fore λ c i. ground arith)
            (link (record { ne_null = new.ne_null; at = ground arith }) refl nil)
            (λ c i. ground arith),
        record {
          same = λ c o. ground (arith, t.same c, has-append c ((q, e) ∷ front) ((item, x) ∷ []));
          brk = t.brk;
          released = t.released;
        },
      ))
