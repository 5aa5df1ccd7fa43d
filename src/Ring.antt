-- ===== src/Ring.antt =====
-- kernel/src/kernel/list.h: circular lists, in which a list is a node as well.
pub mod Tests
use operating_system_cortex.Base.{
  ℕ, zero, suc, ◌+◌, Bool, true, false, ◌==◌, not, if◌then◌else◌, u32, Run, Cmd, ok, fault, hang,
  pure, ◌>>=◌, ◌>>◌, bind, continue,
}
use operating_system_cortex.Dlist.{Ptr, null}

-- `struct list_node`
pub record ListNode : Type 0 where
  pub next : Ptr
  pub prev : Ptr

-- The memory of the nodes.
abbrev pub Nodes : Type 0
Nodes = Ptr → ListNode

unfoldable pub load_node : Ptr → Cmd Nodes ListNode
load_node p h = if p == null then fault else ok (h p, h)

unfoldable pub store_node : Ptr → (ListNode → ListNode) → Cmd Nodes (Unit {0})
store_node p f h = if p == null then fault else ok (tt, λ a. if a == p then f (h p) else h a)

unfoldable pub list_init : (list : Ptr) → Cmd Nodes (Unit {0})
list_init list = do
  store_node list (λ n. record n { prev = list })
  store_node list (λ n. record n { next = list })

unfoldable pub list_node_init : (list : Ptr) → Cmd Nodes (Unit {0})
list_node_init list = do
  store_node list (λ n. record n { next = null })
  store_node list (λ n. record n { prev = null })

-- `_list_add`
unfoldable pub link_between : (new prev next : Ptr) → Cmd Nodes (Unit {0})
link_between new prev next = do
  store_node prev (λ n. record n { next = new })
  store_node next (λ n. record n { prev = new })
  store_node new (λ n. record n { next = next })
  store_node new (λ n. record n { prev = prev })

-- `_list_delete`
unfoldable pub unlink_between : (prev next : Ptr) → Cmd Nodes (Unit {0})
unlink_between prev next = do
  store_node prev (λ n. record n { next = next })
  store_node next (λ n. record n { prev = prev })

unfoldable pub list_add_first : (new list : Ptr) → Cmd Nodes (Unit {0})
list_add_first new list = do l ← load_node list; link_between new list l.next

unfoldable pub list_add_last : (new list : Ptr) → Cmd Nodes (Unit {0})
list_add_last new list = do l ← load_node list; link_between new l.prev list

unfoldable pub list_delete_node : (node : Ptr) → Cmd Nodes (Unit {0})
list_delete_node node = do n ← load_node node; unlink_between n.prev n.next; list_node_init node

unfoldable pub list_delete_first : (list : Ptr) → Cmd Nodes (Unit {0})
list_delete_first list = do
  l ← load_node list
  if l.next == list then pure tt else list_delete_node l.next

unfoldable pub list_delete_last : (list : Ptr) → Cmd Nodes (Unit {0})
list_delete_last list = do
  l ← load_node list
  if l.next == list then pure tt else list_delete_node l.prev

unfoldable pub list_is_empty : (list : Ptr) → Cmd Nodes Bool
list_is_empty list = do l ← load_node list; pure (l.next == list)

-- `list_iterate` from a node on, on fuel.
unfoldable pub size_from : (fuel : ℕ) → (list node : Ptr) → (size : ℕ) → Cmd Nodes ℕ
size_from zero list node size = λ h. hang
size_from (suc fuel) list node size =
    if node == list
    then pure size
    else do n ← load_node node; size_from fuel list n.next (u32 (size + 1))

unfoldable pub list_get_size : (fuel : ℕ) → (list : Ptr) → Cmd Nodes ℕ
list_get_size fuel list = do l ← load_node list; size_from fuel list l.next 0
