-- ===== src/Dlist.antt =====
-- kernel/src/kernel/dlist.c: doubly linked lists whose nodes lie in memory.
pub mod Links
pub mod Splice
pub mod Insert
pub mod Remove
pub mod Search
pub mod Tests
use operating_system_cortex.Base.{
  ℕ, ◌+◌, ◌-◌, ◌≡◌, Bool, true, false, ◌||◌, not, ◌==◌, if◌then◌else◌, u32,
}
use operating_system_cortex.Base.{Run, Cmd, ok, panic, fault, hang, pure, ◌>>=◌, ◌>>◌, stop}
use operating_system_cortex.Base.{zero, suc}

abbrev pub Ptr : Type 0
Ptr = ℕ

abbrev pub null : Ptr
null = 0

-- `struct dlist_node`
pub record Node : Type 0 where
  pub prev : Ptr
  pub next : Ptr
  pub obj : Ptr

-- `struct dlist`
pub record Dlist : Type 0 where
  pub first : Ptr
  pub last : Ptr
  pub size : ℕ

-- The memory of the nodes.
abbrev pub Heap : Type 0
Heap = Ptr → Node

unfoldable pub put : Heap → Ptr → Node → Heap
put h p n a = if a == p then n else h a

-- `*p`, a fault at NULL
unfoldable pub load : Ptr → Cmd Heap Node
load p h = if p == null then fault else ok (h p, h)

unfoldable pub store : Ptr → Node → Cmd Heap (Unit {0})
store p n h = if p == null then fault else ok (tt, put h p n)

unfoldable pub set_next : Ptr → Ptr → Cmd Heap (Unit {0})
set_next p q = do n ← load p; store p (record n { next = q })

unfoldable pub set_prev : Ptr → Ptr → Cmd Heap (Unit {0})
set_prev p q = do n ← load p; store p (record n { prev = q })

abbrev pub not_null : Ptr → Bool
not_null p = not (p == null)

-- The first two checks of each insertion: the node must be free.
unfoldable pub check_free : Ptr → Dlist → Cmd Heap (Unit {0})
check_free node list = do
  n ← load node
  if not_null n.next || not_null n.prev then stop else if node == list.first then stop else pure tt

unfoldable pub insert_first : Ptr → Dlist → Cmd Heap Dlist
insert_first node list = do
  check_free node list
  if list.first == null
      then pure (record { first = node; last = node; size = u32 (list.size + 1) })
      else do
        set_next node list.first
        set_prev list.first node
        pure (record list { first = node; size = u32 (list.size + 1) })

unfoldable pub insert_last : Ptr → Dlist → Cmd Heap Dlist
insert_last node list = do
  check_free node list
  if list.last == null
      then pure (record { first = node; last = node; size = u32 (list.size + 1) })
      else do
        set_prev node list.last
        set_next list.last node
        pure (record list { last = node; size = u32 (list.size + 1) })

-- `a_node` is a member of the list.
unfoldable pub insert_after : (i_node a_node : Ptr) → Dlist → Cmd Heap Dlist
insert_after i_node a_node list = do
  check_free i_node list
  if a_node == list.last then insert_last i_node list else do
    a ← load a_node
    set_next i_node a.next
    set_prev a.next i_node
    set_next a_node i_node
    set_prev i_node a_node
    pure (record list { size = u32 (list.size + 1) })

-- `b_node` is a member of the list.
unfoldable pub insert_before : (i_node b_node : Ptr) → Dlist → Cmd Heap Dlist
insert_before i_node b_node list = do
  check_free i_node list
  if b_node == list.first then insert_first i_node list else do
    b ← load b_node
    set_prev i_node b.prev
    set_next b.prev i_node
    set_next i_node b_node
    set_prev b_node i_node
    pure (record list { size = u32 (list.size + 1) })

-- `list->size--`, with the check above it
unfoldable pub decrement : Dlist → Cmd Heap Dlist
decrement list = if list.size == 0 then stop else pure (record list { size = list.size - 1 })

-- The last lines of each removal: the node is free again.
unfoldable pub unlink : Ptr → Cmd Heap (Unit {0})
unlink node = do set_next node null; set_prev node null

-- The list after its first node, whose neighbour is `p`, is taken off.
unfoldable pub drop_first : Ptr → Dlist → Cmd Heap Dlist
drop_first p list =
    if p == null
    then pure (record list { first = null; last = null })
    else (do set_prev p null; pure (record list { first = p }))

unfoldable pub remove_first : Dlist → Cmd Heap (Ptr × Dlist)
remove_first list = if list.first == null then stop else do
  first ← load list.first
  list' ← drop_first first.next list
  list'' ← decrement list'
  unlink list.first
  pure (list.first, list'')

-- The list after its last node, whose neighbour is `p`, is taken off.
unfoldable pub drop_last : Ptr → Dlist → Cmd Heap Dlist
drop_last p list =
    if p == null
    then pure (record list { first = null; last = null })
    else (do set_next p null; pure (record list { last = p }))

unfoldable pub remove_last : Dlist → Cmd Heap (Ptr × Dlist)
remove_last list = if list.last == null then stop else do
  last ← load list.last
  list' ← drop_last last.prev list
  list'' ← decrement list'
  unlink list.last
  pure (list.last, list'')

-- The neighbours of an inner node are joined.
unfoldable pub remove_inner : Ptr → Dlist → Cmd Heap Dlist
remove_inner node list = do
  n ← load node
  set_next n.prev n.next
  n ← load node
  set_prev n.next n.prev
  decrement list

-- The three cases of `dlist_remove`.
unfoldable pub remove_link : Ptr → Dlist → Cmd Heap Dlist
remove_link node list =
    if node == list.first
    then (do (_, l) ← remove_first list; pure l)
    else if node == list.last
    then (do (_, l) ← remove_last list; pure l)
    else remove_inner node list

unfoldable pub remove : Ptr → Dlist → Cmd Heap (Ptr × Dlist)
remove node list = do list' ← remove_link node list; unlink node; pure (node, list')

-- The loop of `dlist_search`, on fuel.
unfoldable pub search_from : ℕ → (node iter : Ptr) → Cmd Heap ℕ
search_from zero node iter = λ _. hang
search_from (suc fuel) node iter =
    if iter == null
    then pure 0
    else if iter == node
    then pure 1
    else do n ← load iter; search_from fuel node n.next

unfoldable pub search_list : ℕ → Ptr → Dlist → Cmd Heap ℕ
search_list fuel node list = search_from fuel node list.first

unfoldable pub init : Dlist
init = record { first = null; last = null; size = 0 }

unfoldable pub node_init : Ptr → Cmd Heap (Unit {0})
node_init node = store node (record { prev = null; next = null; obj = null })
