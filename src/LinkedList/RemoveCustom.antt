-- ===== src/LinkedList/RemoveCustom.antt =====
-- `bctbx_list_remove_custom` and `bctbx_list_remove_custom_with_data` of src/containers/list.c.
use bctoolbox.Common.{
  ℕ, zero, suc, ◌<◌, ◌≡◌, inl, inr, refl, sym, ap, ◌∙◌, Bool, false, true, List, [], ◌∷◌, ◌++◌,
  ◌||◌, arith, ◌==◌, length, if◌then◌else◌, Bool-cases, ==→eq, length-append, append_assoc,
}
use bctoolbox.LinkedList.{
  remove_with_data, Compare, is_zero, remove_custom_loop, remove_custom_free,
}
use bctoolbox.LinkedList.Heap.{Ptr, null, Heap}
use bctoolbox.LinkedList.Chain.{
  Cells, has, head, IsList, Ensures, ensures, Ensures-feed, Ensures-weaken, has-append,
}
use bctoolbox.LinkedList.Relink.{not_null, load-done}
use bctoolbox.LinkedList.Unlink.{elem-Holds}
use bctoolbox.LinkedList.Remove.{has_data, Removes, Removes-none, given, remove_free-found}

-- The elements that the comparison keeps, and the data of those that it does not.
unfoldable pub keep : Compare → Ptr → Cells → Cells
keep compare u [] = []
keep compare u ((p, e) ∷ xs) =
    if is_zero (compare e u) then keep compare u xs else (p, e) ∷ keep compare u xs

unfoldable pub dropped : Compare → Ptr → Cells → List Ptr
dropped compare u [] = []
dropped compare u ((p, e) ∷ xs) =
    if is_zero (compare e u) then e ∷ dropped compare u xs else dropped compare u xs

-- Whether the comparison is zero at some element.
abbrev has_match : Compare → Ptr → Cells → Bool
has_match compare u [] = false
has_match compare u ((p, e) ∷ xs) = is_zero (compare e u) || has_match compare u xs

has_data_of_match :
    (compare : Compare) (u d : Ptr) (xs : Cells)
    → has_match compare u xs ≡ false
    → is_zero (compare d u) ≡ true
    → has_data d xs ≡ false
has_data_of_match compare u d [] out hit = refl
has_data_of_match compare u d ((p, e) ∷ xs) out hit = elim (Bool-cases (e == d)) [
  | inl same ↦
      ground
        (arith, has_data_of_match compare u d xs, ap (λ a. is_zero (compare a u)) (==→eq e d same))
  | inr differ ↦ ground (arith, has_data_of_match compare u d xs)
]

has_match-append :
    (compare : Compare) (u : Ptr) (xs ys : Cells)
    → has_match compare u (xs ++ ys) ≡ (has_match compare u xs || has_match compare u ys)
has_match-append compare u [] ys = refl
has_match-append compare u ((p, e) ∷ xs) ys = ground (arith, has_match-append compare u xs ys)

pub given-append : (b : Bool) (xs ys : List Ptr) → given b xs ++ given b ys ≡ given b (xs ++ ys)
given-append true xs ys = refl
given-append false xs ys = refl

pub Removes-trans :
    {xs ys zs : Cells} {ds es : List Ptr} {f g h : Heap}
    → Removes xs ys ds f g
    → Removes ys zs es g h
    → ((a : Ptr) → has a xs ≡ false → has a ys ≡ false)
    → Removes xs zs (ds ++ es) f h
Removes-trans {xs} {ys} {zs} {ds} {es} {f} {g} {h} r s within = record {
  freed = λ a i o. elim (Bool-cases (has a ys)) [
    | inl still ↦ s.freed a still o
    | inr gone ↦ s.same a gone ∙ r.freed a i gone
  ];
  same = λ a o. s.same a (within a o) ∙ r.same a o;
  brk = s.brk ∙ r.brk;
  released = s.released ∙ ap (λ l. l ++ es) r.released ∙ append_assoc f.released ds es;
}

pub given-nil : (b : Bool) → given b [] ≡ []
given-nil true = refl
given-nil false = refl

module _ (m : ℕ) (compare : Compare) (with_free : Bool) (u : Ptr) where
  -- What the loop has passed is kept; what it has before it is filtered.
  abbrev Filtered : (kept rest : Cells) → Heap → Ptr → Heap → Type 0
  Filtered kept rest h l g =
      IsList g l (kept ++ keep compare u rest)
      × Removes (kept ++ rest) (kept ++ keep compare u rest)
          (given with_free (dropped compare u rest)) h g

  remove_custom_loop-keep :
      (k : ℕ) (rest kept : Cells) {h : Heap} {l : Ptr}
      → IsList h l (kept ++ rest)
      → has_match compare u kept ≡ false
      → length rest < k
      → length (kept ++ rest) < m
      → Ensures
          (Filtered kept rest h)
          (remove_custom_loop k m compare with_free u l (head rest null) h)
  unfolding remove_custom_loop remove_with_data keep dropped
  remove_custom_loop-keep zero rest kept is out fuel room = absurd (omega arith)
  remove_custom_loop-keep (suc k) [] kept {h} is out fuel room =
      ensures (is, rw (given-nil with_free) (Removes-none (kept ++ []) h))
  remove_custom_loop-keep (suc k) ((p, d) ∷ back) kept {h} {l} is out fuel room =
      let at = elem-Holds kept p d back is in
      rw (not_null at, load-done at)
        (elim (Bool-cases (is_zero (compare d u))) [
          | inl hit ↦ rw hit (
              Ensures-feed
                (remove_free-found kept p d back m with_free is
                  (has_data_of_match compare u d kept out hit) room)
                λ l' g (list, r).
                  Ensures-weaken
                    (remove_custom_loop-keep k back kept list out (omega arith)
                      (omega (arith, length-append kept back, length-append kept ((p, d) ∷ back))))
                    λ l2 g2 (list2, r2). (
                      rw hit list2,
                      rw (hit, ← given-append with_free (d ∷ []) (dropped compare u back))
                          (Removes-trans r r2 λ a o.
                            ground
                              (arith, has-append a kept ((p, d) ∷ back), has-append a kept back)),
                    ))
          | inr miss ↦ rw miss (
              Ensures-weaken
                (remove_custom_loop-keep k back (kept ++ (p, d) ∷ []) {l = l}
                  (rw (append_assoc kept ((p, d) ∷ []) back) is)
                  (ground (arith, has_match-append compare u kept ((p, d) ∷ []))) (omega arith)
                  (rw (append_assoc kept ((p, d) ∷ []) back) room))
                λ l2 g2 (list2, r2).
                  let moved = append_assoc kept ((p, d) ∷ []) (keep compare u back) in
                  (
                    rw miss (rw moved at list2),
                    rw miss (rw (moved, append_assoc kept ((p, d) ∷ []) back) at r2),
                  ))
        ])

-- `bctbx_list_remove_custom` and `bctbx_list_remove_custom_with_data`, with enough fuel and any
-- comparison: the list that is left holds, in order, exactly the elements at which the comparison
-- is not zero; the others are freed, their data have been handed in order to the free function
-- where one is given, and no other cell is written.
pub remove_custom-keep :
    (k : ℕ) (compare : Compare) (with_free : Bool) (u : Ptr) {h : Heap} {l : Ptr} {xs : Cells}
    → IsList h l xs
    → length xs < k
    → Ensures
        (λ l' g.
          IsList g l' (keep compare u xs)
          × Removes xs (keep compare u xs) (given with_free (dropped compare u xs)) h g)
        (remove_custom_free k compare with_free l u h)
unfolding remove_custom_free
remove_custom-keep k compare with_free u {h} {l} {xs} is fuel =
    rw (sym is.starts) at (remove_custom_loop-keep k compare with_free u k xs [] is refl fuel fuel)
