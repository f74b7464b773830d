-- ===== src/LinkedList/Heap.antt =====
-- The memory that src/containers/list.c works on: list elements at addresses, the allocator, and
-- the calls that it makes of a caller's free function.
use bctoolbox.Common.{ℕ, ◌+◌, Option, none, some, List, [], ◌∷◌, ◌++◌, ◌==◌, if◌then◌else◌}

abbrev pub Ptr : Type 0
Ptr = ℕ

abbrev pub null : Ptr
null = 0

-- `struct _bctbx_list`
pub record Node : Type 0 where
  pub next : Ptr
  pub prev : Ptr
  pub elem : Ptr

abbrev pub node : Ptr → Ptr → Ptr → Node
node n p d = record { next = n; prev = p; elem = d }

-- `brk` is the next address that the allocator hands out; `released` are the data pointers given
-- to a free function, in order.
pub record Heap : Type 0 where
  pub cell : Ptr → Option Node
  pub brk : Ptr
  pub released : List Ptr

abbrev pub write : Heap → Ptr → Option Node → Heap
write h p c = record h { cell = λ a. if a == p then c else h.cell a }

-- A run returns, faults at an address that holds no element, or uses up its fuel.
pub data Run (A : Type 0) : Type 0 where
  done : A → Heap → Run A
  fault : Run A
  exhausted : Run A

abbrev pub Cmd : Type 0 → Type 0
Cmd A = Heap → Run A

abbrev pub pure : {A : Type 0} → A → Cmd A
pure = done

module _ {A B : Type 0} where
  abbrev pub feed : Run A → (A → Cmd B) → Run B
  feed (done a h) k = k a h
  feed fault k = fault
  feed exhausted k = exhausted

  infixl 5 ◌>>=◌ ◌>>◌
  abbrev pub ◌>>=◌ : Cmd A → (A → Cmd B) → Cmd B
  m >>= k = λ h. feed (m h) k

  abbrev pub ◌>>◌ : Cmd A → Cmd B → Cmd B
  m >> n = m >>= λ _. n

-- `malloc` of one element with its three fields
unfoldable pub alloc : Node → Cmd Ptr
alloc n h = done h.brk (record (write h h.brk (some n)) { brk = h.brk + 1 })

-- `*p`
unfoldable pub load : Ptr → Cmd Node
load p h = elim (h.cell p) [ none ↦ fault | some n ↦ done n h ]

-- `p->next = q`, `p->prev = q`, `free(p)`
unfoldable pub set_next : Ptr → Ptr → Cmd (Unit {0})
set_next p q h = elim (h.cell p) [
  | none ↦ fault
  | some n ↦ done tt (write h p (some (record n { next = q })))
]

unfoldable pub set_prev : Ptr → Ptr → Cmd (Unit {0})
set_prev p q h = elim (h.cell p) [
  | none ↦ fault
  | some n ↦ done tt (write h p (some (record n { prev = q })))
]

unfoldable pub free : Ptr → Cmd (Unit {0})
free p h = elim (h.cell p) [ none ↦ fault | some n ↦ done tt (write h p none) ]

-- `free_func(data)`
unfoldable pub release : Ptr → Cmd (Unit {0})
release d h = done tt (record h { released = h.released ++ d ∷ [] })
