-- ===== src/Ring/Tests.antt =====
-- A list at 8 with the nodes 16 and 24.
use operating_system_cortex.Base.{ℕ, ◌≡◌, refl, ok, List, [], ◌∷◌, Run, Cmd, ◌>>=◌, ◌>>◌, pure}
use operating_system_cortex.Ring.{
  Nodes, load_node, store_node, list_init, list_node_init, link_between, unlink_between,
  list_add_first, list_add_last, list_delete_first, list_delete_node, size_from, list_get_size,
}

abbrev nodes : Nodes
nodes a = record { next = 0; prev = 0 }

abbrev result : {S : Type 0} → Run (ℕ × S) → List ℕ
result (ok (n, h)) = n ∷ []
result _ = []

abbrev build : Cmd Nodes ℕ
build = do list_init 8; list_add_last 24 8; list_add_first 16 8; list_get_size 3 8

size_of_two : result (build nodes) ≡ 2 ∷ []
unfolding list_init list_add_last list_add_first list_get_size load_node store_node link_between
    size_from
size_of_two = refl

abbrev build_less : Cmd Nodes ℕ
build_less = do
  list_init 8
  list_add_last 24 8
  list_add_first 16 8
  list_delete_first 8
  l ← load_node 8
  pure l.next

first_deleted : result (build_less nodes) ≡ 24 ∷ []
unfolding list_init list_add_last list_add_first list_delete_first list_delete_node list_node_init
    unlink_between load_node store_node link_between
first_deleted = refl
