-- ===== src/LinkedList.antt =====
-- src/containers/list.c: doubly linked lists of data pointers, over the heap of LinkedList/Heap.
-- Each walk over a list runs on fuel `k`. The warnings and errors that a search logs when it finds
-- nothing are left out; the counter of `size` needs no wrap, since every element takes memory.
pub mod Heap
pub mod Insert
pub mod Chain
pub mod Relink
pub mod Walk
pub mod Concat
pub mod Unlink
pub mod Remove
pub mod RemoveCustom
pub mod Free
pub mod Splice
use bctoolbox.Common.{
  ℕ, zero, suc, ◌+◌, Bool, true, false, Option, none, some, ◌==◌, if◌then◌else◌, Ordering,
}
use bctoolbox.Common.Int.{ℤ, pos, negsuc, ◌==ℤ◌}
use Heap.{
  Ptr, null, node, Cmd, exhausted, pure, ◌>>=◌, ◌>>◌, alloc, load, set_next, set_prev, free,
  release,
}

pub new : Ptr → Cmd Ptr
new d = alloc (node null null d)

abbrev pub next_elem : Ptr → Cmd Ptr
next_elem p = do n ← load p; pure n.next

abbrev pub get_data : Ptr → Cmd Ptr
get_data p = do n ← load p; pure n.elem

-- `while (it->next) it = it->next;`
pub last_loop : ℕ → Ptr → Cmd Ptr
last_loop zero p = λ _. exhausted
last_loop (suc k) p = do n ← load p; if n.next == null then pure p else last_loop k n.next

pub last_elem : ℕ → Ptr → Cmd Ptr
unfolding last_loop
last_elem k l = if l == null then pure null else last_loop k l

pub first_loop : ℕ → Ptr → Cmd Ptr
first_loop zero p = λ _. exhausted
first_loop (suc k) p = do n ← load p; if n.prev == null then pure p else first_loop k n.prev

abbrev pub first_elem : ℕ → Ptr → Cmd Ptr
unfolding first_loop
first_elem k l = if l == null then pure null else first_loop k l

pub concat : ℕ → (left right : Ptr) → Cmd Ptr
unfolding last_loop
concat k left right =
    if left == null
    then pure right
    else if right == null
    then pure left
    else do it ← last_loop k left; set_next it right; set_prev right it; pure left

abbrev pub append_link : ℕ → (l item : Ptr) → Cmd Ptr
unfolding concat
append_link k l item = concat k l item

pub append : ℕ → (l d : Ptr) → Cmd Ptr
unfolding new concat
append k l d = do item ← new d; concat k l item

abbrev pub prepend_link : ℕ → (l item : Ptr) → Cmd Ptr
unfolding concat
prepend_link k l item = if l == null then pure item else concat k item l

pub prepend : ℕ → (l d : Ptr) → Cmd Ptr
unfolding new concat
prepend k l d = do item ← new d; concat k item l

-- `freefunc` is a caller's function, of which only the calls are recorded; without one the data
-- stay. `bctbx_list_free` and `bctbx_list_free_with_data` are one loop each, and differ in that.
pub call_free : Bool → Ptr → Cmd (Unit {0})
call_free true d = release d
call_free false d = pure tt

pub free_loop : ℕ → Bool → Ptr → Cmd (Unit {0})
free_loop zero freefunc p = λ _. exhausted
free_loop (suc k) freefunc p = do
  n ← load p
  if n.next == null
      then (do call_free freefunc n.elem; free p)
      else (do call_free freefunc n.elem; free p; free_loop k freefunc n.next)

pub free_list : ℕ → Ptr → Cmd Ptr
unfolding free_loop
free_list k l = if l == null then pure null else do free_loop k false l; pure null

pub free_with_data : ℕ → Ptr → Cmd Ptr
unfolding free_loop
free_with_data k l = if l == null then pure null else do free_loop k true l; pure null

pub unlink : (l p : Ptr) → Cmd Ptr
unlink l p =
    if p == null
    then pure l
    else if p == l
    then (do
      n ← load p
      set_prev p null
      set_next p null
      if n.next == null then pure tt else set_prev n.next null
      pure n.next)
    else do
      n ← load p
      set_next n.prev n.next
      n ← load p
      if n.next == null then pure tt else set_prev n.next n.prev
      set_next p null
      set_prev p null
      pure l

pub erase_link : (l p : Ptr) → Cmd Ptr
erase_link l p = if p == null then pure l else do rest ← unlink l p; free p; pure rest

pub find : ℕ → (l d : Ptr) → Cmd Ptr
find zero l d = λ _. exhausted
find (suc k) l d =
    if l == null then pure null else do n ← load l; if n.elem == d then pure l else find k n.next d

-- `_bctbx_list_remove`; `with_free` says whether a free function is given.
pub remove_free : ℕ → Bool → (l d : Ptr) → Cmd Ptr
unfolding call_free
remove_free k with_free l d = do
  it ← find k l d
  if it == null then pure l else do call_free with_free d; erase_link l it

abbrev pub remove : ℕ → (l d : Ptr) → Cmd Ptr
unfolding remove_free
remove k l d = remove_free k false l d

pub remove_with_data : ℕ → Bool → (l d : Ptr) → Cmd Ptr
unfolding remove_free
remove_with_data k with_free l d = remove_free k with_free l d

pub pop_front : Ptr → Cmd (Ptr × Ptr)
pop_front l =
    if l == null
    then pure (null, null)
    else do n ← load l; rest ← unlink l l; free l; pure (rest, n.elem)

pub size_loop : ℕ → (count : ℕ) → Ptr → Cmd ℕ
size_loop zero count l = λ _. exhausted
size_loop (suc k) count l =
    if l == null then pure count else do n ← load l; size_loop k (count + 1) n.next

pub size : ℕ → Ptr → Cmd ℕ
unfolding size_loop
size k l = size_loop k 0 l

-- `func` works on a state of its own, which the loop passes through.
pub for_each : {S : Type 0} → ℕ → (Ptr → S → S) → Ptr → S → Cmd S
for_each zero func l s = λ _. exhausted
for_each (suc k) func l s =
    if l == null then pure s else do n ← load l; for_each k func n.next (func n.elem s)

abbrev pub for_each2 : {S : Type 0} → ℕ → (Ptr → Ptr → S → S) → Ptr → (user_data : Ptr) → S → Cmd S
unfolding for_each
for_each2 k func l user_data s = for_each k (λ d s. func d user_data s) l s

-- A comparison function returns an int, of which the code reads the sign.
abbrev pub Compare : Type 0
Compare = Ptr → Ptr → Ordering

abbrev pub is_zero : Ordering → Bool
is_zero o = elim o [ Ordering.eq ↦ true | _ ↦ false ]

abbrev pub at_most_zero : Ordering → Bool
at_most_zero o = elim o [ Ordering.gt ↦ false | _ ↦ true ]

-- `_bctbx_list_remove_custom`: the next element is read before the current one may be freed. The
-- inner search for the data has fuel `m` of its own.
pub remove_custom_loop : (k m : ℕ) → Compare → Bool → (user_data left p : Ptr) → Cmd Ptr
remove_custom_loop zero m compare with_free u left p = λ _. exhausted
remove_custom_loop (suc k) m compare with_free u left p = if p == null then pure left else do
  n ← load p
  if is_zero (compare n.elem u)
      then (do
        rest ← remove_with_data m with_free left n.elem
        remove_custom_loop k m compare with_free u rest n.next)
      else remove_custom_loop k m compare with_free u left n.next

pub remove_custom_free : ℕ → Compare → Bool → (left user_data : Ptr) → Cmd Ptr
unfolding remove_custom_loop
remove_custom_free k compare with_free left u = remove_custom_loop k k compare with_free u left left

abbrev pub remove_custom : ℕ → Compare → (left user_data : Ptr) → Cmd Ptr
unfolding remove_custom_free
remove_custom k compare left u = remove_custom_free k compare false left u

abbrev pub remove_custom_with_data : ℕ → Compare → Bool → (left user_data : Ptr) → Cmd Ptr
unfolding remove_custom_free
remove_custom_with_data k compare with_free left u = remove_custom_free k compare with_free left u

pub find_custom : ℕ → Compare → (l user_data : Ptr) → Cmd Ptr
find_custom zero compare l u = λ _. exhausted
find_custom (suc k) compare l u = if l == null then pure null else do
  n ← load l
  if is_zero (compare n.elem u) then pure l else find_custom k compare n.next u

abbrev pub delete_custom : ℕ → Compare → (l user_data : Ptr) → Cmd Ptr
delete_custom k compare l u = do
  p ← find_custom k compare l u
  if p == null then pure l else erase_link l p
