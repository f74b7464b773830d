-- ===== src/LinkedList/Free.antt =====
-- `bctbx_list_free` and `bctbx_list_free_with_data` of src/containers/list.c.
use bctoolbox.Common.{
  ℕ, zero, suc, ◌≤◌, ◌<◌, ◌≡◌, inl, inr, refl, sym, ap, ◌∙◌, Bool, false, true, none, [], ◌∷◌, ◌++◌,
  arith, length, Bool-cases, append-nil, append_assoc,
}
use bctoolbox.LinkedList.{call_free, free_loop, free_list, free_with_data}
use bctoolbox.LinkedList.Heap.{Ptr, null, node, Heap, done, write, release}
use bctoolbox.LinkedList.Chain.{
  Cells, has, Holds, Chain, nil, link, IsList, Ensures, ensures, Ensures-feed, Ensures-weaken,
  Chain-frame,
}
use bctoolbox.LinkedList.Relink.{not_null, load-done, free-done}
use bctoolbox.LinkedList.Walk.{elems}
use bctoolbox.LinkedList.Unlink.{first-Holds}
use bctoolbox.LinkedList.Remove.{Removes, Removes-none, given}
use bctoolbox.LinkedList.RemoveCustom.{given-append}

abbrev handed : Bool → Ptr → Heap → Heap
handed b d h = record h { released = h.released ++ given b (d ∷ []) }

call_free-done : (b : Bool) (d : Ptr) (h : Heap) → call_free b d h ≡ done tt (handed b d h)
unfolding call_free release
call_free-done true d h = refl
call_free-done false d h =
    ap (λ r. done tt (record h { released = r })) (sym (append-nil h.released))

free_loop-Removes :
    (k : ℕ) (b : Bool) {h : Heap} {before p d : Ptr} {xs : Cells}
    → Chain h null before ((p, d) ∷ xs)
    → length xs < k
    → Ensures
        (λ _ g. Removes ((p, d) ∷ xs) [] (given b (elems ((p, d) ∷ xs))) h g)
        (free_loop k b p h)
unfolding free_loop
free_loop-Removes zero b c fuel = absurd (omega arith)
free_loop-Removes (suc k) b {h} (link {p} {d} e out nil) fuel =
    let e1 : Holds (handed b d h) p (node null _ d) = record { ne_null = e.ne_null; at = e.at } in
    rw (load-done e, call_free-done b d h, free-done e1)
      (ensures (record {
        freed = λ a i o. ground arith;
        same = λ a o. ground arith;
        brk = refl;
        released = refl;
      }))
free_loop-Removes (suc k) b {h} (link {before} {p} {d} e out (link {p = q} {d = f} {xs} e' out' c))
      fuel =
    let h1 = handed b d h in
    let e1 : Holds h1 p (node q before d) = record { ne_null = e.ne_null; at = e.at } in
    rw (load-done e, not_null e', call_free-done b d h, free-done e1)
      (Ensures-weaken
        (free_loop-Removes k b {h = write h1 p none}
          (Chain-frame (link e' out' c) λ a i. ground arith) (omega arith))
        λ _ g r. record {
          freed = λ a i o. elim (Bool-cases (has a ((q, f) ∷ xs))) [
            | inl still ↦ r.freed a still refl
            | inr gone ↦ r.same a gone ∙ ground arith
          ];
          same = λ a o. ground (arith, r.same a);
          brk = r.brk;
          released =
              r.released
              ∙ append_assoc h.released (given b (d ∷ [])) (given b (f ∷ elems xs))
              ∙ ap (λ l. h.released ++ l) (given-append b (d ∷ []) (f ∷ elems xs));
        })

-- `bctbx_list_free`, with enough fuel: every element is freed, no other cell is written, and NULL
-- is returned.
pub free_list-Removes :
    (k : ℕ) {h : Heap} {l : Ptr} {xs : Cells}
    → IsList h l xs
    → length xs ≤ k
    → Ensures (λ l' g. (l' ≡ null) × Removes xs [] [] h g) (free_list k l h)
unfolding free_list
free_list-Removes k {h} {l} {xs = []} is fuel = rw is.starts (ensures (refl, Removes-none [] h))
free_list-Removes k {h} {l} {xs = (p, d) ∷ xs} is fuel =
    rw (is.starts, not_null (first-Holds is.chain))
      (Ensures-feed (free_loop-Removes k false is.chain (omega arith)) λ _ g r. ensures (refl, r))

-- `bctbx_list_free_with_data` also hands the data of each element, in order, to the free function.
pub free_with_data-Removes :
    (k : ℕ) {h : Heap} {l : Ptr} {xs : Cells}
    → IsList h l xs
    → length xs ≤ k
    → Ensures (λ l' g. (l' ≡ null) × Removes xs [] (elems xs) h g) (free_with_data k l h)
unfolding free_with_data
free_with_data-Removes k {h} {l} {xs = []} is fuel =
    rw is.starts (ensures (refl, Removes-none [] h))
free_with_data-Removes k {h} {l} {xs = (p, d) ∷ xs} is fuel =
    rw (is.starts, not_null (first-Holds is.chain))
      (Ensures-feed (free_loop-Removes k true is.chain (omega arith)) λ _ g r. ensures (refl, r))
