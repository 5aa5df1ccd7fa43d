-- ===== src/Dlist/Tests.antt =====
-- The list operations on a small memory: the list 1, 2, 3 and the free node 4.
use operating_system_cortex.Base.{refl, ◌==◌, if◌then◌else◌, List, [], ◌∷◌, arith, Returns}
use operating_system_cortex.Dlist.{Ptr, Dlist, Heap, remove}
use operating_system_cortex.Dlist.Links.{IsDlist, IsFree}
use operating_system_cortex.Dlist.Remove.{Leaves, remove-Leaves}

abbrev memory : Heap
memory a =
    if a == 1
    then record { prev = 0; next = 2; obj = 10 }
    else if a == 2
    then record { prev = 1; next = 3; obj = 20 }
    else if a == 3
    then record { prev = 2; next = 0; obj = 30 }
    else record { prev = 0; next = 0; obj = 40 }

abbrev list : Dlist
list = record { first = 1; last = 3; size = 3 }

abbrev nodes : List Ptr
nodes = 1 ∷ 2 ∷ 3 ∷ []

list-IsDlist : IsDlist memory list nodes
list-IsDlist = record {
  links = (
    (λ e. omega (arith, e)),
    refl,
    refl,
    ((λ e. omega (arith, e)), refl, refl, ((λ e. omega (arith, e)), refl, refl, tt)),
  );
  distinct = (refl, (refl, (refl, tt)));
  first = refl;
  last = refl;
  size = refl;
}

free : IsFree memory 4
free = record { ne_null = λ e. omega (arith, e); prev = refl; next = refl }

remove-Leaves_example : Returns (Leaves memory (1 ∷ []) 2 (3 ∷ [])) (remove 2 list memory)
remove-Leaves_example = remove-Leaves (1 ∷ []) 2 (3 ∷ []) list-IsDlist
