-- ===== src/LinkedList/Chain.antt =====
-- What a heap holds as a doubly linked list: the elements in order, and the links both ways.
use bctoolbox.Common.{
  ◌≡◌, ◌≢◌, ◌≤◌, ◌<◌, ◌+◌, refl, ◌∙◌, Bool, true, false, ◌||◌, none, some, List, [], ◌∷◌, ◌++◌,
  arith, ◌==◌,
}
use bctoolbox.LinkedList.Heap.{Ptr, null, Node, node, Heap, Run, done, Cmd, feed}

-- The address and the data pointer of each element, in order.
abbrev pub Cells : Type 0
Cells = List (Ptr × Ptr)

abbrev pub has : Ptr → Cells → Bool
has a [] = false
has a ((p, _) ∷ xs) = (a == p) || has a xs

-- The address of the first element, or `stop` where there is none; and of the last one.
abbrev pub head : Cells → Ptr → Ptr
head [] stop = stop
head ((p, _) ∷ xs) stop = p

abbrev pub last : Ptr → Cells → Ptr
last before [] = before
last before ((p, _) ∷ xs) = last p xs

-- `p` is the address of an element with the fields of `n`.
pub record Holds (h : Heap) (p : Ptr) (n : Node) : Type 0 where
  pub ne_null : p ≢ null
  pub at : h.cell p ≡ some n

-- From `xs` the `next` pointers lead to `stop`, the `prev` pointers back to `before`.
pub data Chain (h : Heap) (stop : Ptr) : Ptr → Cells → Type 0 where
  nil : {before : Ptr} → Chain h stop before []
  link :
      {before p d : Ptr} {xs : Cells}
      → Holds h p (node (head xs stop) before d)
      → has p xs ≡ false
      → Chain h stop p xs
      → Chain h stop before ((p, d) ∷ xs)

-- A list pointer `l` stands for the elements `xs`.
pub record IsList (h : Heap) (l : Ptr) (xs : Cells) : Type 0 where
  pub starts : l ≡ head xs null
  pub chain : Chain h null null xs

abbrev pub Disjoint : Cells → Cells → Type 0
Disjoint xs ys = (a : Ptr) → has a xs ≡ true → has a ys ≡ false

-- `g` has the cells that `h` has, but for those of `xs`.
abbrev pub SameOutside : Cells → Heap → Heap → Type 0
SameOutside xs h g = (a : Ptr) → has a xs ≡ false → g.cell a ≡ h.cell a

-- A run from `h` to `g` writes to the cells of `xs` at most, allocates nothing and calls no
-- function of the caller.
pub record Touches (xs : Cells) (h g : Heap) : Type 0 where
  pub same : SameOutside xs h g
  pub brk : g.brk ≡ h.brk
  pub released : g.released ≡ h.released

abbrev pub Within : Cells → Cells → Type 0
Within xs zs = (a : Ptr) → has a zs ≡ false → has a xs ≡ false

pub Touches-refl : (xs : Cells) (h : Heap) → Touches xs h h
Touches-refl xs h = record { same = λ a o. refl; brk = refl; released = refl }

pub Touches-trans :
    {xs ys zs : Cells} {f g h : Heap}
    → Touches xs f g
    → Touches ys g h
    → Within xs zs
    → Within ys zs
    → Touches zs f h
Touches-trans t u i j = record {
  same = λ a o. u.same a (j a o) ∙ t.same a (i a o);
  brk = u.brk ∙ t.brk;
  released = u.released ∙ t.released;
}

-- No element stands at an address that the allocator has yet to hand out.
pub record IsFresh (h : Heap) : Type 0 where
  pub brk_pos : 0 < h.brk
  pub unused : (a : Ptr) → h.brk ≤ a → h.cell a ≡ none

-- A run from `h` to `g` allocates the next address and writes to the cells of `xs` at most.
pub record Allocates (xs : Cells) (h g : Heap) : Type 0 where
  pub same : SameOutside xs h g
  pub brk : g.brk ≡ h.brk + 1
  pub released : g.released ≡ h.released

pub has-append : (a : Ptr) (xs ys : Cells) → has a (xs ++ ys) ≡ (has a xs || has a ys)
has-append a [] ys = refl
has-append a ((p, d) ∷ xs) ys = ground (arith, has-append a xs ys)

pub head-append : (xs ys : Cells) (stop : Ptr) → head (xs ++ ys) stop ≡ head xs (head ys stop)
head-append [] ys stop = refl
head-append (x ∷ xs) ys stop = refl

pub last-append : (before : Ptr) (xs ys : Cells) → last before (xs ++ ys) ≡ last (last before xs) ys
last-append before [] ys = refl
last-append before ((p, d) ∷ xs) ys = last-append p xs ys

module _ {h : Heap} where
  -- A chain survives any change that spares its own cells.
  pub Chain-frame :
      {g : Heap} {stop before : Ptr} {xs : Cells}
      → Chain h stop before xs
      → ((a : Ptr) → has a xs ≡ true → g.cell a ≡ h.cell a)
      → Chain g stop before xs
  Chain-frame nil same = nil
  Chain-frame (link {p} e out c) same =
      link (ground (arith, same p)) out (Chain-frame c λ a i. same a (ground arith))

  pub Chain-split_front :
      (xs ys : Cells) {before stop : Ptr}
      → Chain h stop before (xs ++ ys)
      → Chain h (head ys stop) before xs
  Chain-split_front [] ys c = nil
  Chain-split_front ((p, d) ∷ xs) ys {stop} (link e out c) =
      link (rw (head-append xs ys stop) at e) (ground (arith, has-append p xs ys))
        (Chain-split_front xs ys c)

  pub Chain-split_back :
      (xs ys : Cells) {before stop : Ptr}
      → Chain h stop before (xs ++ ys)
      → Chain h stop (last before xs) ys
  Chain-split_back [] ys c = c
  Chain-split_back ((p, d) ∷ xs) ys (link e out c) = Chain-split_back xs ys c

  pub Chain-Disjoint :
      (xs ys : Cells) {before stop : Ptr} → Chain h stop before (xs ++ ys) → Disjoint xs ys
  Chain-Disjoint [] ys c a i = cc
  Chain-Disjoint ((p, d) ∷ xs) ys (link e out c) a i =
      ground (arith, Chain-Disjoint xs ys c a, has-append p xs ys)

  pub Chain-append :
      {ys : Cells} {stop before : Ptr} {xs : Cells}
      → Chain h (head ys stop) before xs
      → Chain h stop (last before xs) ys
      → Disjoint xs ys
      → Chain h stop before (xs ++ ys)
  Chain-append nil t apart = t
  Chain-append {ys} {stop} (link {p} {xs} e out c) t apart =
      link (rw (head-append xs ys stop) e) (ground (arith, apart p, has-append p xs ys))
        (Chain-append c t λ a i. apart a (ground arith))

  pub null-not-mem : {stop before : Ptr} {xs : Cells} → Chain h stop before xs → has null xs ≡ false
  null-not-mem nil = refl
  null-not-mem (link e out c) = ground (arith, null-not-mem c)

  pub unused-not-mem :
      {stop before : Ptr} {xs : Cells} (a : Ptr)
      → Chain h stop before xs
      → h.cell a ≡ none
      → has a xs ≡ false
  unused-not-mem a nil free = refl
  unused-not-mem a (link e out c) free = ground (arith, unused-not-mem a c free)

-- A run that returns, with a postcondition on its result and heap.
pub data Ensures {A : Type 0} (P : A → Heap → Type 0) : Run A → Type 0 where
  ensures : {a : A} {h : Heap} → P a h → Ensures P (done a h)

module _ {A : Type 0} {P : A → Heap → Type 0} where
  pub Ensures-feed :
      {B : Type 0} {Q : B → Heap → Type 0} {r : Run A} {k : A → Cmd B}
      → Ensures P r
      → ((a : A) (h : Heap) → P a h → Ensures Q (k a h))
      → Ensures Q (feed r k)
  Ensures-feed (ensures p) next = next _ _ p

  pub Ensures-weaken :
      {Q : A → Heap → Type 0} {r : Run A}
      → Ensures P r
      → ((a : A) (h : Heap) → P a h → Q a h)
      → Ensures Q r
  Ensures-weaken (ensures p) weaken = ensures (weaken _ _ p)
