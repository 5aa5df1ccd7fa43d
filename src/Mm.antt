-- ===== src/Mm.antt =====
-- kernel/src/mm/mm.c: the memory manager. The nodes of the blocks lie in memory; `_heap_s`,
-- `_heap_e` and the addresses of the five `root_obj`, which the linker fixes, are arguments of
-- `mm_init`.
pub mod Init
pub mod Join
pub mod Insert
pub mod Free
pub mod Tests
use operating_system_cortex.Base.{
  ℕ, zero, suc, ◌+◌, ◌-◌, ◌*◌, ◌/◌, ◌%◌, ◌^◌, ◌≡◌, Bool, true, false, ◌||◌, ◌&&◌, not, ◌==◌, ltb,
  leb, if◌then◌else◌, List, [], ◌∷◌, Option, none, some, get_elem?, set, u32, sub32, bit_or, Run,
  Cmd, ok, panic, fault, hang, bind, pure, continue, stop, ◌>>=◌, ◌>>◌,
}
use operating_system_cortex.Dlist.{Ptr, null}

-- MM_ALIGN
abbrev pub mm_align : ℕ
mm_align = 8

-- sizeof(struct mm_node)
abbrev pub node_size : ℕ
node_size = 8

-- The mark of an allocated block.
abbrev pub allocated_mark : ℕ
allocated_mark = 0xC0DEBABE

-- `struct mm_node`: `size` has the region in its bits from 28 on and the block size below them
pub record MmNode : Type 0 where
  pub next : Ptr
  pub size : ℕ

-- `struct physmem`, less its name; `root_obj` lies in memory at `root_node`
pub record Physmem : Type 0 where
  pub start_addr : Ptr
  pub end_addr : Ptr
  pub size : ℕ
  pub allocated : ℕ
  pub min_alloc : ℕ
  pub root_node : Ptr
  pub last_node : Ptr

unfoldable pub mm_get_region : ℕ → ℕ
mm_get_region size = size / 2 ^ 28 % 16

unfoldable pub mm_set_region : (size physmem : ℕ) → ℕ
mm_set_region size physmem = bit_or (size % 2 ^ 28) (u32 (physmem * 2 ^ 28))

unfoldable pub mm_get_size : ℕ → ℕ
mm_get_size size = size % 2 ^ 28

unfoldable pub mm_set_size : (size new_size : ℕ) → ℕ
mm_set_size size new_size = bit_or (size - size % 2 ^ 28) new_size

abbrev pub Memory : Type 0
Memory = Ptr → MmNode

unfoldable pub peek : Ptr → Cmd Memory MmNode
peek p m = if p == null then fault else ok (m p, m)

unfoldable pub poke : Ptr → MmNode → Cmd Memory (Unit {0})
poke p n m = if p == null then fault else ok (tt, λ a. if a == p then n else m a)

unfoldable pub set_next : Ptr → Ptr → Cmd Memory (Unit {0})
set_next p q = do n ← peek p; poke p (record n { next = q })

unfoldable pub set_size : Ptr → ℕ → Cmd Memory (Unit {0})
set_size p s = do n ← peek p; poke p (record n { size = s })

-- The search of `mm_list_insert`, on fuel: the last node of the list below `node`.
unfoldable pub find_before : ℕ → (node iter : Ptr) → Cmd Memory Ptr
find_before zero node iter = λ _. hang
find_before (suc fuel) node iter = do
  i ← peek iter
  if ltb i.next node then find_before fuel node i.next else pure iter

-- Is a block that begins at `p`, with this size field, followed at once by what is at `q`?
unfoldable pub adjacent : (p : Ptr) → (size : ℕ) → (q : Ptr) → Bool
adjacent p size q = u32 (p + mm_get_size size) == q

-- The merge with the block before, which gives the node that goes on.
unfoldable pub merge_before : (node iter : Ptr) → Cmd Memory Ptr
merge_before node iter = do
  i ← peek iter
  n ← peek node
  if adjacent iter i.size node
      then (do set_size iter (u32 (i.size + mm_get_size n.size)); pure iter)
      else pure node

-- The merge with the block behind, which is never the last node.
unfoldable pub merge_after : (node iter last : Ptr) → Cmd Memory (Unit {0})
merge_after node iter last = do
  i ← peek iter
  x ← peek i.next
  n ← peek node
  if adjacent node n.size i.next
      then (if i.next == last
          then set_next node last
          else (do set_size node (u32 (n.size + mm_get_size x.size)); set_next node x.next))
      else set_next node i.next

unfoldable pub mm_list_insert : ℕ → (node root last : Ptr) → Cmd Memory (Unit {0})
mm_list_insert fuel node root last = if ltb node root || ltb last node then stop else do
  iter ← find_before fuel node root
  joined ← merge_before node iter
  merge_after joined iter last
  if joined == iter then pure tt else set_next iter joined

-- The globals of mm.c.
pub record Mm : Type 0 where
  pub memory : Memory
  pub physical_memories : List Physmem

unfoldable pub on_memory : {A : Type 0} → Cmd Memory A → Cmd Mm A
on_memory op s = bind (op s.memory) (λ (a, m). ok (a, record s { memory = m }))

-- `physical_memories[index]`, whose entry behind the five is NULL
unfoldable pub get_physmem : ℕ → Cmd Mm Physmem
get_physmem index s = elim (get_elem? s.physical_memories index) [
  | none ↦ fault
  | some p ↦ ok (p, s)
]

unfoldable pub set_physmem : ℕ → Physmem → Cmd Mm (Unit {0})
set_physmem index p s = ok (tt, record s { physical_memories = set s.physical_memories index p })

-- The size that is looked for: with the node, at least the minimum, and aligned.
unfoldable pub block_size : (size min_alloc : ℕ) → ℕ
block_size size min_alloc =
    let s = u32 (size + node_size) in
    let t = if ltb s min_alloc then min_alloc else s in
    if t % mm_align == 0 then t else u32 (t + mm_align) - u32 (t + mm_align) % mm_align

-- The first-fit search of `mm_alloc`, on fuel: the node found and the one before.
unfoldable pub first_fit : ℕ → (size : ℕ) → (iter iter_prev : Ptr) → Cmd Memory (Ptr × Ptr)
first_fit zero size iter iter_prev = λ _. hang
first_fit (suc fuel) size iter iter_prev = do
  i ← peek iter
  if i.next == null
      then pure (iter, iter_prev)
      else if leb size (mm_get_size i.size)
      then pure (iter, iter_prev)
      else first_fit fuel size i.next iter

-- The block is taken from the list, and what it has too much goes back.
unfoldable pub take_block : (fuel size index : ℕ) → (iter iter_prev : Ptr) → Cmd Mm Ptr
take_block fuel size index iter iter_prev = do
  physmem ← get_physmem index
  i ← on_memory (peek iter)
  let curr_block_size = mm_get_size i.size
  on_memory (set_next iter_prev i.next)
  if leb (u32 (size + physmem.min_alloc)) curr_block_size
      then (do
        let new_node = u32 (iter + size)
        n ← on_memory (peek new_node)
        on_memory (set_size new_node (mm_set_region n.size index))
        n ← on_memory (peek new_node)
        on_memory (set_size new_node (mm_set_size n.size (sub32 curr_block_size size)))
        set_physmem index (record physmem { allocated = u32 (physmem.allocated + size) })
        i ← on_memory (peek iter)
        on_memory (set_size iter (mm_set_size i.size size))
        on_memory (mm_list_insert fuel new_node physmem.root_node physmem.last_node))
      else set_physmem index
          (record physmem { allocated = u32 (physmem.allocated + curr_block_size) })
  on_memory (set_next iter allocated_mark)
  pure (u32 (iter + node_size))

unfoldable pub mm_alloc : (fuel size index : ℕ) → Cmd Mm Ptr
mm_alloc fuel size index = do
  physmem ← get_physmem index
  let wanted = block_size size physmem.min_alloc
  if ltb (sub32 physmem.size physmem.allocated) wanted then pure null else do
    root ← on_memory (peek physmem.root_node)
    (iter, iter_prev) ← on_memory (first_fit fuel wanted root.next physmem.root_node)
    i ← on_memory (peek iter)
    if i.next == null then pure null else take_block fuel wanted index iter iter_prev

unfoldable pub mm_free : (fuel : ℕ) → (memory : Ptr) → Cmd Mm (Unit {0})
mm_free fuel memory = if memory == null then stop else do
  let node = sub32 memory node_size
  n ← on_memory (peek node)
  if not (n.next == allocated_mark) then stop else do
    let physmem = mm_get_region n.size
    region ← get_physmem physmem
    set_physmem physmem (record region { allocated = sub32 region.allocated (mm_get_size n.size) })
    on_memory (mm_list_insert fuel node region.root_node region.last_node)

unfoldable pub mm_get_total : ℕ → Cmd Mm ℕ
mm_get_total physmem = do p ← get_physmem physmem; pure p.size

unfoldable pub mm_get_used : ℕ → Cmd Mm ℕ
mm_get_used physmem = do p ← get_physmem physmem; pure p.allocated

unfoldable pub mm_get_free : ℕ → Cmd Mm ℕ
mm_get_free physmem = do p ← get_physmem physmem; pure (sub32 p.size p.allocated)

unfoldable pub mm_get_frag : ℕ → Cmd Mm ℕ
mm_get_frag physmem = pure 0
