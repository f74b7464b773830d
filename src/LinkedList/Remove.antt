-- ===== src/LinkedList/Remove.antt =====
-- `bctbx_list_remove`, `bctbx_list_remove_custom` and their variants of src/containers/list.c.
use bctoolbox.Common.{
  and_true, and_false, ℕ, ◌<◌, ◌≡◌, inl, inr, refl, sym, ◌∙◌, Bool, false, true, List, [], ◌∷◌,
  ◌++◌, ◌||◌, arith, ◌==◌, length, if◌then◌else◌, Bool-cases, append-nil, ◌&&◌,
}
use mathlib.Core.Bool.{false≢true}
use bctoolbox.LinkedList.{call_free, remove_free, erase_link}
use bctoolbox.LinkedList.Heap.{Ptr, null, Heap, release, feed}
use bctoolbox.LinkedList.Chain.{
  Cells, IsList, SameOutside, Ensures, ensures, Ensures-weaken, Chain-frame, has-append,
}
use bctoolbox.LinkedList.Relink.{not_null}
use bctoolbox.LinkedList.Walk.{first_with, find-first_with}
use bctoolbox.LinkedList.Unlink.{Freed, elem-Holds, erase_link_lem}

-- Whether some element has data `d`, and the elements less the first such.
abbrev pub has_data : Ptr → Cells → Bool
has_data d [] = false
has_data d ((p, e) ∷ xs) = e == d || has_data d xs

unfoldable pub erase_data : Ptr → Cells → Cells
erase_data d [] = []
erase_data d ((p, e) ∷ xs) = if e == d then xs else (p, e) ∷ erase_data d xs

-- A run from `h` to `g` frees the elements of `xs` that are not in `ys`, hands `ds` to the free
-- function in this order, and changes no cell outside `xs`.
pub record Removes (xs ys : Cells) (ds : List Ptr) (h g : Heap) : Type 0 where
  pub freed : Freed xs ys g
  pub same : SameOutside xs h g
  pub brk : g.brk ≡ h.brk
  pub released : g.released ≡ h.released ++ ds

pub Removes-none : (xs : Cells) (h : Heap) → Removes xs xs [] h h
Removes-none xs h = record {
  freed = λ a i o. cc;
  same = λ a o. refl;
  brk = refl;
  released = sym (append-nil h.released);
}

abbrev pub given : Bool → List Ptr → List Ptr
given true ds = ds
given false ds = []

first_with-split :
    (front back : Cells) (p d : Ptr)
    → has_data d front ≡ false
    → first_with d (front ++ (p, d) ∷ back) ≡ p
first_with-split [] back p d out = ground arith
first_with-split ((q, e) ∷ front) back p d out = ground (arith, first_with-split front back p d)

-- Removal of a known element.
module _ (front : Cells) (p d : Ptr) (back : Cells) where
  erase_link-Removes :
      {h : Heap} {l : Ptr}
      → IsList h l (front ++ (p, d) ∷ back)
      → Ensures
          (λ l' g.
            IsList g l' (front ++ back) × Removes (front ++ (p, d) ∷ back) (front ++ back) [] h g)
          (erase_link l p h)
  erase_link-Removes {h} is =
      Ensures-weaken (erase_link_lem front p d back is) λ l' g (list, gone, t). (
        list,
        record {
          freed =
              λ a i o. ground (arith, has-append a front ((p, d) ∷ back), has-append a front back);
          same = t.same;
          brk = t.brk;
          released = t.released ∙ sym (append-nil h.released);
        },
      )

  erase_link-after_release :
      (with_free : Bool) {h : Heap} {l : Ptr}
      → IsList h l (front ++ (p, d) ∷ back)
      → Ensures
          (λ l' g.
            IsList g l' (front ++ back)
            × Removes (front ++ (p, d) ∷ back) (front ++ back) (given with_free (d ∷ [])) h g)
          (feed (call_free with_free d h) (λ _. erase_link l p))
  unfolding call_free release
  erase_link-after_release false is = erase_link-Removes is
  erase_link-after_release true {h} is =
      let h1 = record h { released = h.released ++ d ∷ [] } in
      Ensures-weaken
        (erase_link-Removes {h = h1}
          (record { starts = is.starts; chain = Chain-frame is.chain λ a i. refl }))
        λ l' g (list, r). (
          list,
          record {
            freed = r.freed;
            same = r.same;
            brk = r.brk;
            released = r.released ∙ append-nil (h.released ++ d ∷ []);
          },
        )

  -- The first element with its data is the one that a removal takes.
  pub remove_free-found :
      (k : ℕ) (with_free : Bool) {h : Heap} {l : Ptr}
      → IsList h l (front ++ (p, d) ∷ back)
      → has_data d front ≡ false
      → length (front ++ (p, d) ∷ back) < k
      → Ensures
          (λ l' g.
            IsList g l' (front ++ back)
            × Removes (front ++ (p, d) ∷ back) (front ++ back) (given with_free (d ∷ [])) h g)
          (remove_free k with_free l d h)
  unfolding remove_free
  remove_free-found k with_free is out fuel =
      rw
        (
          is.starts,
          find-first_with k d is.chain fuel,
          first_with-split front back p d out,
          not_null (elem-Holds front p d back is),
        )
        (rw (sym is.starts) (erase_link-after_release with_free is))

-- Where an element with the data stands: some first one, or none.
pub record Found (d : Ptr) (xs : Cells) : Type 0 where
  pub front : Cells
  pub address : Ptr
  pub back : Cells
  pub splits : xs ≡ front ++ (address, d) ∷ back
  pub is_first : has_data d front ≡ false
  pub rest : erase_data d xs ≡ front ++ back

find_data : (d : Ptr) (xs : Cells) → has_data d xs ≡ true → Found d xs
unfolding erase_data
find_data d [] i = absurd (false≢true i)
find_data d ((p, e) ∷ xs) i = elim (Bool-cases (e == d)) [
  | inl hit ↦ record {
    front = [];
    address = p;
    back = xs;
    splits = ground arith;
    is_first = refl;
    rest = rw hit;
  }
  | inr miss ↦
      let f = find_data d xs (ground arith) in
      record {
        front = (p, e) ∷ f.front;
        address = f.address;
        back = f.back;
        splits = ground (arith, f.splits);
        is_first = ground (arith, f.is_first);
        rest = ground (arith, f.rest);
      }
]

first_with-none : (d : Ptr) (xs : Cells) → has_data d xs ≡ false → first_with d xs ≡ null
first_with-none d [] out = refl
first_with-none d ((p, e) ∷ xs) out = ground (arith, first_with-none d xs)

erase_data-none : (d : Ptr) (xs : Cells) → has_data d xs ≡ false → erase_data d xs ≡ xs
unfolding erase_data
erase_data-none d [] out = refl
erase_data-none d ((p, e) ∷ xs) out = ground (arith, erase_data-none d xs)

-- `bctbx_list_remove` and `bctbx_list_remove_with_data`: with enough fuel the first element with
-- the data is unlinked and freed, after the data have been handed to the free function where one
-- is given; a list without such an element is returned as it is.
pub remove_free-erase_data :
    (k : ℕ) (with_free : Bool) (d : Ptr) {h : Heap} {l : Ptr} {xs : Cells}
    → IsList h l xs
    → length xs < k
    → Ensures
        (λ l' g.
          IsList g l' (erase_data d xs)
          × Removes xs (erase_data d xs) (given (with_free && has_data d xs) (d ∷ [])) h g)
        (remove_free k with_free l d h)
unfolding remove_free
remove_free-erase_data k with_free d {h} {l} {xs} is fuel = elim (Bool-cases (has_data d xs)) [
  | inr absent ↦
      rw
        (
          absent,
          erase_data-none d xs absent,
          is.starts,
          find-first_with k d is.chain fuel,
          first_with-none d xs absent,
          and_false with_free,
        )
        (ensures (record { starts = refl; chain = is.chain }, Removes-none xs h))
  | inl found ↦
      let f = find_data d xs found in
      rw (found, f.rest, and_true with_free)
        (rw f.splits (
          remove_free-found f.front f.address d f.back k with_free (rw f.splits at is) f.is_first
            (rw f.splits at fuel)))
]
