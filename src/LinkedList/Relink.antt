-- ===== src/LinkedList/Relink.antt =====
-- What the single writes of src/containers/list.c do to a chain.
use bctoolbox.Common.{ne→==, ◌≡◌, refl, false, none, some, [], ◌∷◌, arith, ◌==◌}
use bctoolbox.LinkedList.Heap.{Ptr, null, Node, Heap, done, write, load, set_next, set_prev, free}
use bctoolbox.LinkedList.Chain.{
  Cells, last, Holds, Chain, nil, link, Chain-frame, Touches, Ensures, ensures, Ensures-weaken,
}

module _ {h : Heap} {p : Ptr} {n : Node} (e : Holds h p n) where
  pub not_null : (p == null) ≡ false
  not_null = ne→== p null e.ne_null

  pub load-done : load p h ≡ done n h
  unfolding load
  load-done = rw (e.at, load)

  pub set_next-done :
      (q : Ptr) → set_next p q h ≡ done tt (write h p (some (record n { next = q })))
  unfolding set_next
  set_next-done q = rw (e.at, set_next)

  pub set_prev-done :
      (q : Ptr) → set_prev p q h ≡ done tt (write h p (some (record n { prev = q })))
  unfolding set_prev
  set_prev-done q = rw (e.at, set_prev)

  pub free-done : free p h ≡ done tt (write h p none)
  unfolding free
  free-done = rw (e.at, free)

-- The last element of a chain is linked to another successor.
pub set_next-last :
    {h : Heap} {stop before p d : Ptr} {xs : Cells} (q : Ptr)
    → Chain h stop before ((p, d) ∷ xs)
    → Ensures
        (λ _ g. Chain g q before ((p, d) ∷ xs) × Touches ((p, d) ∷ xs) h g)
        (set_next (last p xs) q h)
set_next-last q (link e out nil) = rw (set_next-done e q) (
    ensures
      (link (ground arith) out nil, record { same = ground arith; brk = refl; released = refl }))
set_next-last q (link {p} e out (link e' out' c)) =
    Ensures-weaken (set_next-last q (link e' out' c)) λ _ g (back, t). (
      link (ground (arith, t.same p)) out back,
      record { same = λ a o. t.same a (ground arith); brk = t.brk; released = t.released },
    )

-- The first element of a chain is linked to another predecessor.
pub set_prev-first :
    {h : Heap} {stop before p d : Ptr} {xs : Cells} (q : Ptr)
    → Chain h stop before ((p, d) ∷ xs)
    → Ensures (λ _ g. Chain g stop q ((p, d) ∷ xs) × Touches ((p, d) ∷ []) h g) (set_prev p q h)
set_prev-first q (link e out c) = rw (set_prev-done e q) (
    ensures (
      link (ground arith) out (Chain-frame c λ a i. ground arith),
      record { same = ground arith; brk = refl; released = refl },
    ))
