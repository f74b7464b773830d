-- ===== src/Tests/Lists.antt =====
-- The theorems about src/containers/list.c at a memory with two lists.
use Prim.Native.Nat.{compare}
use bctoolbox.Common.{refl, true, none, some, [], ◌∷◌, arith, ◌==◌, if◌then◌else◌}
use bctoolbox.LinkedList.{unlink, remove_custom_free}
use bctoolbox.LinkedList.Heap.{node, Heap}
use bctoolbox.LinkedList.Chain.{Cells, nil, link, IsList, IsFresh, Allocates, Ensures}
use bctoolbox.LinkedList.Unlink.{unlink_lem, Unlinked}
use bctoolbox.LinkedList.Remove.{Removes, given}
use bctoolbox.LinkedList.RemoveCustom.{remove_custom-keep, keep, dropped}
use bctoolbox.LinkedList.Insert.{insert_sorted}
use bctoolbox.LinkedList.Insert.Sorted.{insert_sorted-inserted, inserted, IsSorted}

-- The elements 1, 2 and 3 of one list, and 4 and 5 of another.
abbrev memory : Heap
memory = record {
  cell = λ a.
      if a == 1
      then some (node 2 0 10)
      else if a == 2
      then some (node 3 1 20)
      else if a == 3
      then some (node 0 2 20)
      else if a == 4
      then some (node 5 0 40)
      else if a == 5
      then some (node 0 4 50)
      else none;
  brk = 6;
  released = [];
}

abbrev three : Cells
three = (1, 10) ∷ (2, 20) ∷ (3, 20) ∷ []

three-IsList : IsList memory 1 three
three-IsList = record {
  starts = refl;
  chain =
      link (record { ne_null = omega arith; at = refl }) refl
        (link (record { ne_null = omega arith; at = refl }) refl
          (link (record { ne_null = omega arith; at = refl }) refl nil));
}

memory-IsFresh : IsFresh memory
memory-IsFresh = record { brk_pos = omega arith; unused = λ a i. ground arith }

unlink_lem_example :
    Ensures (Unlinked ((1, 10) ∷ (3, 20) ∷ []) three 2 20 memory) (unlink 1 2 memory)
unlink_lem_example = unlink_lem ((1, 10) ∷ []) 2 20 ((3, 20) ∷ []) three-IsList

remove_custom-keep_example :
    Ensures
      (λ l' g.
        IsList g l' (keep compare 20 three)
        × Removes three (keep compare 20 three) (given true (dropped compare 20 three)) memory g)
      (remove_custom_free 4 compare true 1 20 memory)
remove_custom-keep_example = remove_custom-keep 4 compare true 20 three-IsList (omega arith)

insert_sorted-inserted_example :
    Ensures
      (λ l' g.
        IsList g l' (inserted compare 15 6 three)
        × IsSorted compare (inserted compare 15 6 three)
        × Allocates (inserted compare 15 6 three) memory g)
      (insert_sorted 4 compare 1 15 memory)
insert_sorted-inserted_example =
    insert_sorted-inserted 4 compare 15 memory-IsFresh (λ a b h. ground arith) three-IsList
      (refl, (refl, tt)) (omega arith)
