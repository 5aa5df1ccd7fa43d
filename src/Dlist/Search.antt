-- ===== src/Dlist/Search.antt =====
-- `dlist_search` decides membership.
use operating_system_cortex.Base.{
  ℕ, zero, suc, ◌<◌, ◌≡◌, List, [], ◌∷◌, arith, if◌then◌else◌, length, head_or, mem, ok,
}
use operating_system_cortex.Dlist.{Ptr, null, Dlist, Heap, search_from, search_list}
use operating_system_cortex.Dlist.Links.{Links, IsDlist, load-ok}

search_from-mem :
    (h : Heap) (fuel : ℕ) (node before : Ptr) (xs : List Ptr)
    → Links h before xs null
    → length xs < fuel
    → search_from fuel node (head_or xs null) h ≡ ok (if mem node xs then 1 else 0, h)
unfolding search_from
search_from-mem h zero node before xs ls f = absurd (omega arith)
search_from-mem h (suc fuel) node before [] ls f = ground arith
search_from-mem h (suc fuel) node before (x ∷ xs) (ne, p, n, ls) f =
    ground (arith, load-ok x h ne, search_from-mem h fuel node x xs ls (omega arith))

-- `dlist_search` returns 1 for a node of the list and 0 for any other, and writes nothing. A fuel
-- above the number of nodes is enough for its loop.
search_list-mem :
    {h : Heap} {l : Dlist} (xs : List Ptr) (fuel : ℕ) (node : Ptr)
    → IsDlist h l xs
    → length xs < fuel
    → search_list fuel node l h ≡ ok (if mem node xs then 1 else 0, h)
unfolding search_list
search_list-mem {h} xs fuel node is f = rw is.first (search_from-mem h fuel node null xs is.links f)
