-- ===== src/LinkedList/Insert/Copy.antt =====
-- `bctbx_list_copy`, `bctbx_list_copy_with_data` and `bctbx_list_copy_reverse_with_data` of
-- src/containers/list.c.
use bctoolbox.Common.{
  ℕ, zero, suc, ◌+◌, ◌≤◌, ◌<◌, ◌≡◌, inl, inr, refl, sym, ap, ◌∙◌, false, true, [], ◌∷◌, ◌++◌, arith,
  length, Bool-cases, append-nil, append_assoc, ltb,
}
use mathlib.Core.Bool.{true≢false}
use bctoolbox.LinkedList.Insert.{copy_loop, copy_with_data}
use bctoolbox.LinkedList.Heap.{Ptr, null, Heap}
use bctoolbox.LinkedList.Chain.{
  Cells, has, head, last, Chain, nil, link, IsList, IsFresh, Touches, Ensures, ensures,
  Ensures-feed, Ensures-weaken, Chain-frame, has-append, unused-not-mem, last-append,
}
use bctoolbox.LinkedList.Relink.{not_null, load-done}
use bctoolbox.LinkedList.Concat.{with_new, fresh-not-mem, Chain-with_new, new-alloc, new-Holds}
use bctoolbox.LinkedList.Splice.{link_after-Chain}
use bctoolbox.LinkedList.Unlink.{first-Holds}

-- The cells that a copy makes: data through `f`, at successive addresses from `a` on.
unfoldable pub copied : (Ptr → Ptr) → (a : Ptr) → Cells → Cells
copied f a [] = []
copied f a ((p, d) ∷ xs) = (a, f d) ∷ copied f (a + 1) xs

-- A run that leaves every cell below `b` as it was, and the allocator ahead of all cells.
pub record Extends (b : Ptr) (h g : Heap) : Type 0 where
  pub same : (a : Ptr) → a < b → g.cell a ≡ h.cell a
  pub fresh : IsFresh g
  pub released : g.released ≡ h.released

abbrev Below : Ptr → Cells → Type 0
Below b xs = (a : Ptr) → has a xs ≡ true → a < b

abbrev Above : Ptr → Cells → Type 0
Above b xs = (a : Ptr) → has a xs ≡ true → b ≤ a

IsFresh-with_new : {h : Heap} (fresh : IsFresh h) (d : Ptr) → IsFresh (with_new fresh d)
IsFresh-with_new {h} fresh d = record {
  brk_pos = omega arith;
  unused = λ a i. ground (arith, fresh.unused a);
}

IsFresh-attached :
    {h g : Heap} (fresh : IsFresh h) (d : Ptr) {stop before : Ptr} {made : Cells}
    → Chain h stop before made
    → Touches (made ++ (h.brk, d) ∷ []) (with_new fresh d) g
    → IsFresh g
IsFresh-attached {h} {g} fresh d {made} m t = record {
  brk_pos = omega (arith, t.brk);
  unused = λ a i.
      let over : h.brk < a = omega (arith, t.brk) in
      ground (
        arith,
        t.same a,
        fresh.unused a,
        unused-not-mem a m (fresh.unused a (omega arith)),
        has-append a made ((h.brk, d) ∷ []),
      );
}

module _ (f : Ptr → Ptr) (b : Ptr) where
  copy_loop-copied :
      (k : ℕ) (xs made : Cells) {h : Heap} {before : Ptr}
      → IsFresh h
      → b ≤ h.brk
      → Chain h null before xs
      → Below b xs
      → Chain h null null made
      → Above b made
      → length xs < k
      → Ensures
          (λ l g. IsList g l (made ++ copied f h.brk xs) × Extends b h g)
          (copy_loop k f (head made null) (last null made) (head xs null) h)
  unfolding copy_loop copied
  copy_loop-copied zero xs made fresh room c below m above fuel = absurd (omega arith)
  copy_loop-copied (suc k) [] made fresh room c below m above fuel = ensures (
    rw (append-nil made) (record { starts = refl; chain = m }),
    record { same = λ a i. refl; fresh = fresh; released = refl },
  )
  copy_loop-copied (suc k) ((p, d) ∷ xs) [] {h} fresh room (link e out c) below m above fuel =
      rw (not_null e, load-done e, new-alloc fresh (f d))
        (Ensures-weaken
          (copy_loop-copied k xs ((h.brk, f d) ∷ []) (IsFresh-with_new fresh (f d)) (omega arith)
            (Chain-frame c λ a i. ground (arith, below a)) (λ a i. below a (ground arith))
            (link (new-Holds fresh (f d)) refl nil) (λ a i. ground arith) (omega arith))
          λ l g (list, t). (
            list,
            record {
              same = λ a i. t.same a i ∙ ground arith;
              fresh = t.fresh;
              released = t.released;
            },
          ))
  copy_loop-copied (suc k) ((p, d) ∷ xs) ((q, x) ∷ made) {h} fresh room (link e out c) below m above
        fuel =
      rw (not_null e, load-done e, new-alloc fresh (f d), not_null (first-Holds m))
        (Ensures-feed
          (link_after-Chain h.brk (f d) q x made (Chain-with_new fresh (f d) m)
            (new-Holds fresh (f d)) (fresh-not-mem fresh (f d) m))
          λ _ g (whole, t).
            let outside : (a : Ptr) → a < b → has a ((q, x) ∷ made ++ (h.brk, f d) ∷ []) ≡ false =
              λ a i. ground (arith, above a, has-append a ((q, x) ∷ made) ((h.brk, f d) ∷ [])) in
            let next : copied f g.brk xs ≡ copied f (h.brk + 1) xs =
              ap (λ n. copied f n xs) t.brk in
            Ensures-weaken
              (rw (last-append q made ((h.brk, f d) ∷ [])) at (
                copy_loop-copied k xs ((q, x) ∷ made ++ (h.brk, f d) ∷ []) {h = g}
                  (IsFresh-attached fresh (f d) m t) (omega (arith, t.brk))
                  (Chain-frame c λ a i. ground (arith, below a, t.same a, outside a))
                  (λ a i. below a (ground arith)) whole
                  (λ a i. ground (arith, above a, has-append a ((q, x) ∷ made) ((h.brk, f d) ∷ [])))
                  (omega arith)))
              λ l g2 (list, u). (
                rw
                    (
                      next,
                      append_assoc ((q, x) ∷ made) ((h.brk, f d) ∷ []) (copied f (h.brk + 1) xs),
                    )
                    at list,
                record {
                  same = λ a i. u.same a i ∙ ground (arith, t.same a, outside a);
                  fresh = u.fresh;
                  released = u.released ∙ t.released;
                },
              ))

Below-brk :
    {h : Heap} {stop before : Ptr} {xs : Cells}
    → IsFresh h
    → Chain h stop before xs
    → Below h.brk xs
Below-brk {h} fresh c a i = elim (Bool-cases (ltb a h.brk)) [
  | inl lt ↦ ground arith
  | inr ge ↦ absurd (true≢false (sym i ∙ unused-not-mem a c (fresh.unused a (ground arith))))
]

-- `bctbx_list_copy_with_data` with enough fuel makes a list of new elements with the data, through
-- the function, of the old ones in order; it leaves every older cell, and so the old list, as it was.
-- `bctbx_list_copy` is the case of the identity.
pub copy_with_data-copied :
    (k : ℕ) (f : Ptr → Ptr) {h : Heap} {l : Ptr} {xs : Cells}
    → IsFresh h
    → IsList h l xs
    → length xs < k
    → Ensures
        (λ l' g. IsList g l' (copied f h.brk xs) × IsList g l xs × Extends h.brk h g)
        (copy_with_data k f l h)
unfolding copy_with_data
copy_with_data-copied k f {h} {l} {xs} fresh is fuel =
    let below = Below-brk fresh is.chain in
    Ensures-weaken
      (rw (sym is.starts) at
        (copy_loop-copied f h.brk k xs [] fresh (omega arith) is.chain below nil (λ a i. cc) fuel))
      λ l' g (list, t). (
        list,
        record { starts = is.starts; chain = Chain-frame is.chain λ a i. t.same a (below a i) },
        t,
      )
