-- ===== src/LinkedList/Insert/Positions.antt =====
-- `bctbx_list_nth_data`, `bctbx_list_position` and `bctbx_list_index` of src/containers/list.c.
use bctoolbox.Common.{
  ℕ, zero, suc, ◌+◌, ◌<◌, ◌≡◌, refl, false, [], Bool-cases, inl, inr, ◌∷◌, arith, ◌==◌,
  if◌then◌else◌, length,
}
use bctoolbox.Common.Int.{ℤ, pos, negsuc}
use bctoolbox.LinkedList.Insert.{nth_loop, nth_data, position_loop, position, index_loop, index}
use bctoolbox.LinkedList.Heap.{Ptr, null, Heap, done}
use bctoolbox.LinkedList.Chain.{Cells, head, Chain, nil, link, IsList}
use bctoolbox.LinkedList.Relink.{not_null, load-done}

-- The data at an index, and the index of an address or of data.
abbrev pub data_at : Cells → ℕ → Ptr
data_at [] i = null
data_at ((p, d) ∷ xs) zero = d
data_at ((p, d) ∷ xs) (suc i) = data_at xs i

abbrev pub address_index : (from : ℕ) → Ptr → Cells → ℤ
address_index from q [] = negsuc 0
address_index from q ((p, d) ∷ xs) = if q == p then pos from else address_index (suc from) q xs

abbrev pub data_index : (from : ℕ) → Ptr → Cells → ℤ
data_index from e [] = negsuc 0
data_index from e ((p, d) ∷ xs) = if e == d then pos from else data_index (suc from) e xs

module _ {h : Heap} where
  nth_loop-data_at :
      (k i n : ℕ) {before : Ptr} {xs : Cells}
      → Chain h null before xs
      → length xs < k
      → nth_loop k i (pos (i + n)) (head xs null) h ≡ done (data_at xs n) h
  unfolding nth_loop
  nth_loop-data_at zero i n c fuel = absurd (omega arith)
  nth_loop-data_at (suc k) i n nil fuel = refl
  nth_loop-data_at (suc k) i zero (link e out c) fuel = rw (not_null e, load-done e) (ground arith)
  nth_loop-data_at (suc k) i (suc n) (link e out c) fuel =
      let further : (i == i + suc n) ≡ false = ground arith in
      let shift : i + suc n ≡ i + 1 + n = omega arith in
      rw (not_null e, load-done e, further)
        (rw shift (nth_loop-data_at k (i + 1) n c (omega arith)))

  nth_loop-neg :
      (k i n : ℕ) {before : Ptr} {xs : Cells}
      → Chain h null before xs
      → length xs < k
      → nth_loop k i (negsuc n) (head xs null) h ≡ done null h
  unfolding nth_loop
  nth_loop-neg zero i n c fuel = absurd (omega arith)
  nth_loop-neg (suc k) i n nil fuel = refl
  nth_loop-neg (suc k) i n (link e out c) fuel =
      rw (not_null e, load-done e) (nth_loop-neg k (i + 1) n c (omega arith))

  position_loop-address_index :
      (k i : ℕ) (q : Ptr) {before : Ptr} {xs : Cells}
      → Chain h null before xs
      → length xs < k
      → position_loop k i (head xs null) q h ≡ done (address_index i q xs) h
  unfolding position_loop
  position_loop-address_index zero i q c fuel = absurd (omega arith)
  position_loop-address_index (suc k) i q nil fuel = refl
  position_loop-address_index (suc k) i q (link {p} e out c) fuel =
      let step : suc i ≡ i + 1 = omega arith in
      elim (Bool-cases (q == p)) [
        | inl hit ↦ rw (not_null e, hit)
        | inr miss ↦
            rw (not_null e, miss, load-done e)
              (rw step (position_loop-address_index k (i + 1) q c (omega arith)))
      ]

  index_loop-data_index :
      (k i : ℕ) (a : Ptr) {before : Ptr} {xs : Cells}
      → Chain h null before xs
      → length xs < k
      → index_loop k i (head xs null) a h ≡ done (data_index i a xs) h
  unfolding index_loop
  index_loop-data_index zero i a c fuel = absurd (omega arith)
  index_loop-data_index (suc k) i a nil fuel = refl
  index_loop-data_index (suc k) i a (link {d} e out c) fuel =
      let step : suc i ≡ i + 1 = omega arith in
      rw (not_null e, load-done e)
        (elim (Bool-cases (a == d)) [
          | inl hit ↦ rw hit
          | inr miss ↦ rw miss (rw step (index_loop-data_index k (i + 1) a c (omega arith)))
        ])

-- The answers of the three calls on a list of elements: the data at an index, or NULL past the end
-- and below 0, and the first index of an address and of data, or -1 where there is none.
pub record Answers (xs : Cells) (h : Heap) (l : Ptr) (k : ℕ) : Type 0 where
  pub nth : (n : ℕ) → nth_data k l (pos n) h ≡ done (data_at xs n) h
  pub nth_neg : (n : ℕ) → nth_data k l (negsuc n) h ≡ done null h
  pub position_of : (q : Ptr) → position k l q h ≡ done (address_index 0 q xs) h
  pub index_of : (d : Ptr) → index k l d h ≡ done (data_index 0 d xs) h

-- `bctbx_list_nth_data`, `bctbx_list_position` and `bctbx_list_index` with enough fuel answer as the
-- list of elements does, and leave the heap as it is.
pub positions_lem :
    (k : ℕ) {h : Heap} {l : Ptr} {xs : Cells} → IsList h l xs → length xs < k → Answers xs h l k
unfolding nth_data position index
positions_lem k {h} {l} {xs} is fuel = record {
  nth = λ n. rw is.starts (ground (arith, nth_loop-data_at k 0 n is.chain fuel));
  nth_neg = λ n. rw is.starts (nth_loop-neg k 0 n is.chain fuel);
  position_of = λ q. rw is.starts (position_loop-address_index k 0 q is.chain fuel);
  index_of = λ d. rw is.starts (index_loop-data_index k 0 d is.chain fuel);
}
