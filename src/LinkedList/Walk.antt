-- ===== src/LinkedList/Walk.antt =====
-- The walks of src/containers/list.c that only read: each finds what a function on the list of
-- elements finds, leaves the heap as it was, and ends once its fuel exceeds the list's length.
use bctoolbox.Common.{
  ℕ, zero, suc, ◌+◌, ◌<◌, ◌≡◌, refl, [], ◌∷◌, arith, ◌∙◌, ◌==◌, if◌then◌else◌, length, map, List,
}
use bctoolbox.LinkedList.{
  last_loop, find, size_loop, for_each, Compare, is_zero, find_custom, size, last_elem,
}
use bctoolbox.LinkedList.Heap.{Ptr, null, Heap, done}
use bctoolbox.LinkedList.Chain.{Cells, head, last, Chain, nil, link, IsList}
use bctoolbox.LinkedList.Relink.{not_null, load-done}

-- The address of the first element with data pointer `d`, and of the first match.
abbrev pub first_with : Ptr → Cells → Ptr
first_with d [] = null
first_with d ((p, e) ∷ xs) = if e == d then p else first_with d xs

abbrev pub first_matching : Compare → Ptr → Cells → Ptr
first_matching compare u [] = null
first_matching compare u ((p, e) ∷ xs) =
    if is_zero (compare e u) then p else first_matching compare u xs

-- The data pointers, in order; and a loop over them.
abbrev pub elems : Cells → List Ptr
elems = map (λ c. c.1)

abbrev pub fold : {S : Type 0} → (Ptr → S → S) → Cells → S → S
fold func [] s = s
fold func ((p, d) ∷ xs) s = fold func xs (func d s)

module _ {h : Heap} where
  pub last_loop-last :
      (k : ℕ) {before p d : Ptr} {xs : Cells}
      → Chain h null before ((p, d) ∷ xs)
      → length xs < k
      → last_loop k p h ≡ done (last p xs) h
  unfolding last_loop
  last_loop-last zero c fuel = absurd (omega arith)
  last_loop-last (suc k) (link e out nil) fuel = rw (load-done e)
  last_loop-last (suc k) (link e out (link e' out' c)) fuel =
      rw (load-done e, not_null e') (last_loop-last k (link e' out' c) (omega arith))

  pub find-first_with :
      (k : ℕ) {before : Ptr} {xs : Cells} (d : Ptr)
      → Chain h null before xs
      → length xs < k
      → find k (head xs null) d h ≡ done (first_with d xs) h
  unfolding find
  find-first_with zero d c fuel = absurd (omega arith)
  find-first_with (suc k) d nil fuel = refl
  find-first_with (suc k) d (link e out c) fuel =
      rw (not_null e, load-done e) (ground (arith, find-first_with k d c))

  pub find_custom-first_matching :
      (k : ℕ) {before : Ptr} {xs : Cells} (compare : Compare) (u : Ptr)
      → Chain h null before xs
      → length xs < k
      → find_custom k compare (head xs null) u h ≡ done (first_matching compare u xs) h
  unfolding find_custom
  find_custom-first_matching zero compare u c fuel = absurd (omega arith)
  find_custom-first_matching (suc k) compare u nil fuel = refl
  find_custom-first_matching (suc k) compare u (link e out c) fuel =
      rw (not_null e, load-done e) (ground (arith, find_custom-first_matching k compare u c))

  pub size_loop-length :
      (k count : ℕ) {before : Ptr} {xs : Cells}
      → Chain h null before xs
      → length xs < k
      → size_loop k count (head xs null) h ≡ done (count + length xs) h
  unfolding size_loop
  size_loop-length zero count c fuel = absurd (omega arith)
  size_loop-length (suc k) count nil fuel = ground arith
  size_loop-length (suc k) count (link e out c) fuel =
      rw (not_null e, load-done e) (ground (arith, size_loop-length k (count + 1) c))

  pub for_each-fold :
      {S : Type 0} (k : ℕ) {before : Ptr} {xs : Cells} (func : Ptr → S → S) (s : S)
      → Chain h null before xs
      → length xs < k
      → for_each k func (head xs null) s h ≡ done (fold func xs s) h
  unfolding for_each
  for_each-fold zero func s c fuel = absurd (omega arith)
  for_each-fold (suc k) func s nil fuel = refl
  for_each-fold (suc k) func s (link {d} e out c) fuel =
      rw (not_null e, load-done e) (for_each-fold k func (func d s) c (omega arith))

-- The answers of the calls that walk over a list of elements: how many there are, the first with
-- some data or at which a comparison is zero, the state behind a call with each of the data in
-- order, and the last element; NULL stands for none.
pub record Walks (S : Type 0) (xs : Cells) (h : Heap) (l : Ptr) (k : ℕ) : Type 0 where
  pub count : size k l h ≡ done (length xs) h
  pub found : (d : Ptr) → find k l d h ≡ done (first_with d xs) h
  pub matched :
      (compare : Compare) (u : Ptr)
      → find_custom k compare l u h ≡ done (first_matching compare u xs) h
  pub visited : (func : Ptr → S → S) (s : S) → for_each k func l s h ≡ done (fold func xs s) h
  pub end : last_elem k l h ≡ done (last null xs) h

last_elem-last :
    (k : ℕ) {h : Heap} {l : Ptr} {xs : Cells}
    → IsList h l xs
    → length xs < k
    → last_elem k l h ≡ done (last null xs) h
unfolding last_elem
last_elem-last k {xs = []} is fuel = rw is.starts refl
last_elem-last k {h} {xs = (p, d) ∷ xs} is fuel = rw is.starts (by_first k is.chain (omega arith))
  where
    by_first :
        (k : ℕ)
        → Chain h null null ((p, d) ∷ xs)
        → length xs < k
        → last_elem k p h ≡ done (last p xs) h
    by_first k (link e out c) fuel = rw (not_null e) (last_loop-last k (link e out c) fuel)

-- `bctbx_list_size`, `bctbx_list_find`, `bctbx_list_find_custom`, `bctbx_list_for_each` and
-- `bctbx_list_last_elem` with fuel above the length answer as the list of elements does, and leave
-- the heap as it is.
pub walks_lem :
    (S : Type 0) (k : ℕ) {h : Heap} {l : Ptr} {xs : Cells}
    → IsList h l xs
    → length xs < k
    → Walks S xs h l k
unfolding size
walks_lem S k {h} {l} {xs} is fuel = record {
  count = rw is.starts (size_loop-length k 0 is.chain fuel ∙ ground arith);
  found = λ d. rw is.starts (find-first_with k d is.chain fuel);
  matched = λ compare u. rw is.starts (find_custom-first_matching k compare u is.chain fuel);
  visited = λ func s. rw is.starts (for_each-fold k func s is.chain fuel);
  end = last_elem-last k is fuel;
}
