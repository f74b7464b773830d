-- ===== src/LinkedList/Insert.antt =====
-- src/containers/list.c, continued: positions, insertion and copies.
pub mod Sorted
pub mod Before
pub mod Copy
pub mod Positions
use bctoolbox.Common.{ℕ, zero, suc, ◌+◌, ◌==◌, if◌then◌else◌}
use bctoolbox.Common.Int.{ℤ, pos, negsuc, ◌==ℤ◌}
use bctoolbox.LinkedList.{new, append, prepend, Compare, at_most_zero}
use bctoolbox.LinkedList.Heap.{
  Ptr, null, Cmd, exhausted, pure, ◌>>=◌, ◌>>◌, load, set_next, set_prev,
}

-- `nth_data` reads a signed index, and returns NULL where there is no such element.
unfoldable pub nth_loop : ℕ → (i : ℕ) (index : ℤ) → Ptr → Cmd Ptr
nth_loop zero i index l = λ _. exhausted
nth_loop (suc k) i index l =
    if l == null
    then pure null
    else do n ← load l; if pos i ==ℤ index then pure n.elem else nth_loop k (i + 1) index n.next

unfoldable pub nth_data : ℕ → Ptr → ℤ → Cmd Ptr
unfolding nth_loop
nth_data k l index = nth_loop k 0 index l

unfoldable pub position_loop : ℕ → (i : ℕ) (l p : Ptr) → Cmd ℤ
position_loop zero i l p = λ _. exhausted
position_loop (suc k) i l p =
    if l == null
    then pure (negsuc 0)
    else if p == l
    then pure (pos i)
    else do n ← load l; position_loop k (i + 1) n.next p

unfoldable pub position : ℕ → (l p : Ptr) → Cmd ℤ
unfolding position_loop
position k l p = position_loop k 0 l p

unfoldable pub index_loop : ℕ → (i : ℕ) (l d : Ptr) → Cmd ℤ
index_loop zero i l d = λ _. exhausted
index_loop (suc k) i l d =
    if l == null
    then pure (negsuc 0)
    else do n ← load l; if d == n.elem then pure (pos i) else index_loop k (i + 1) n.next d

unfoldable pub index : ℕ → (l d : Ptr) → Cmd ℤ
unfolding index_loop
index k l d = index_loop k 0 l d

-- The relinking that `insert_sorted` and `insert` share: `item` goes before `it`.
unfoldable pub link_before : (item it : Ptr) → Cmd (Unit {0})
link_before item it = do
  n ← load it
  set_prev item n.prev
  set_next item it
  n ← load it
  if n.prev == null then pure tt else set_next n.prev item
  set_prev it item

-- `before->next = item; item->prev = before;`
unfoldable pub link_after : (before item : Ptr) → Cmd (Unit {0})
link_after before item = do set_next before item; set_prev item before

-- The loop of `insert_sorted`: `before` is `previt`, and `ret` the head to return.
unfoldable pub insert_sorted_loop : ℕ → Compare → (d item ret before it : Ptr) → Cmd Ptr
insert_sorted_loop zero compare d item ret before it = λ _. exhausted
insert_sorted_loop (suc k) compare d item ret before it =
    if it == null then (do link_after before item; pure ret) else do
      n ← load it
      if at_most_zero (compare d n.elem)
          then (do link_before item it; pure (if n.prev == null then item else ret))
          else insert_sorted_loop k compare d item ret it n.next

unfoldable pub insert_sorted : ℕ → Compare → (l d : Ptr) → Cmd Ptr
insert_sorted k compare l d =
    if l == null
    then append k l d
    else do item ← new d; insert_sorted_loop k compare d item l null l

-- The loop of `insert` goes on to the end after it has linked the new element.
unfoldable pub insert_loop : (k m : ℕ) → (l before d it : Ptr) → Cmd Ptr
insert_loop zero m l before d it = λ _. exhausted
insert_loop (suc k) m l before d it =
    if it == null
    then pure l
    else if it == before
    then (do
      n ← load it
      if n.prev == null
          then prepend m l d
          else do item ← new d; link_before item it; n ← load it; insert_loop k m l before d n.next)
    else do n ← load it; insert_loop k m l before d n.next

unfoldable pub insert : ℕ → (l before d : Ptr) → Cmd Ptr
insert k l before d =
    if l == null
    then append k l d
    else if before == null
    then append k l d
    else insert_loop k k l before d l

-- `copyfunc` maps a data pointer to that of its copy; `bctbx_list_copy` keeps the pointer.
unfoldable pub copy_loop : ℕ → (Ptr → Ptr) → (copied before it : Ptr) → Cmd Ptr
copy_loop zero copyfunc copied before it = λ _. exhausted
copy_loop (suc k) copyfunc copied before it = if it == null then pure copied else do
  n ← load it
  item ← new (copyfunc n.elem)
  if copied == null then pure tt else link_after before item
  copy_loop k copyfunc (if copied == null then item else copied) item n.next

unfoldable pub copy_with_data : ℕ → (Ptr → Ptr) → Ptr → Cmd Ptr
unfolding copy_loop
copy_with_data k copyfunc l = copy_loop k copyfunc null null l

unfoldable pub copy : ℕ → Ptr → Cmd Ptr
unfolding copy_with_data
copy k l = copy_with_data k (λ d. d) l

unfoldable pub copy_reverse_loop : (k m : ℕ) → (Ptr → Ptr) → (copied it : Ptr) → Cmd Ptr
copy_reverse_loop zero m copyfunc copied it = λ _. exhausted
copy_reverse_loop (suc k) m copyfunc copied it = if it == null then pure copied else do
  n ← load it
  copied ← prepend m copied (copyfunc n.elem)
  copy_reverse_loop k m copyfunc copied n.next

unfoldable pub copy_reverse_with_data : ℕ → (Ptr → Ptr) → Ptr → Cmd Ptr
unfolding copy_reverse_loop
copy_reverse_with_data k copyfunc l = copy_reverse_loop k k copyfunc null l
