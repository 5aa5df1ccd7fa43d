-- ===== src/Mm/Init.antt =====
-- `mm_init` of kernel/src/mm/mm.c: the regions, and the first free list of each.
use operating_system_cortex.Base.{
  ℕ, suc, ◌+◌, ◌-◌, ◌%◌, ◌&&◌, ◌==◌, ltb, leb, if◌then◌else◌, List, [], ◌∷◌, u32, sub32, Cmd, ok,
  fault, bind, pure, ◌>>=◌, ◌>>◌,
}
use operating_system_cortex.Dlist.{Ptr, null}
use operating_system_cortex.Mm.{
  mm_align, node_size, Physmem, Memory, Mm, poke, mm_set_region, mm_set_size,
}

-- The regions as they are declared.
unfoldable pub region : (start_addr end_addr min_alloc root : ℕ) → Physmem
region start_addr end_addr min_alloc root = record {
  start_addr = start_addr;
  end_addr = end_addr;
  size = 0;
  allocated = 0;
  min_alloc = min_alloc;
  root_node = root;
  last_node = null;
}

unfoldable pub physical_memories : (root_obj : ℕ → Ptr) → List Physmem
physical_memories root_obj =
    region 0 0 16 (root_obj 0)
    ∷ region 0x70000000 0x7007FFFF 256 (root_obj 1)
    ∷ region 0x70080000 0x700FFFFF 256 (root_obj 2)
    ∷ region 0x70100000 0x7017FFFF 256 (root_obj 3)
    ∷ region 0x70180000 0x701FFFFF 256 (root_obj 4)
    ∷ []

-- Erasing the bytes from `start` up to `end` clears the words that lie in that range.
unfoldable pub erase : (start end : Ptr) → Memory → Memory
erase start end m a = record {
  next = if leb start a && leb (a + 4) end then 0 else (m a).next;
  size = if leb start (a + 4) && leb (a + 8) end then 0 else (m a).size;
}

-- The two addresses, taken from the linker where both are 0, and then aligned inwards.
unfoldable pub set_bounds : (heap_s heap_e : Ptr) → Physmem → Physmem
set_bounds heap_s heap_e p =
    if (p.start_addr == 0) && (p.end_addr == 0)
    then record p { start_addr = heap_s; end_addr = heap_e }
    else p

unfoldable pub align_bounds : Physmem → Physmem
align_bounds p = record p {
  start_addr =
      if p.start_addr % mm_align == 0
      then p.start_addr
      else u32 (p.start_addr + mm_align) - u32 (p.start_addr + mm_align) % mm_align;
  end_addr = p.end_addr - p.end_addr % mm_align;
}

-- The body of the loop of `mm_init`. Erasing runs over the end of memory if the start is above the
-- end: a fault here.
unfoldable pub init_physmem : (heap_s heap_e : Ptr) → (index : ℕ) → Physmem → Cmd Memory Physmem
init_physmem heap_s heap_e index physmem =
    let raw = set_bounds heap_s heap_e physmem in
    if ltb raw.end_addr raw.start_addr then (λ _. fault) else do
      (λ m. ok (tt, erase raw.start_addr raw.end_addr m))
      let p = align_bounds raw
      let node_end = sub32 p.end_addr node_size
      let size = sub32 node_end p.start_addr
      poke p.root_node (record { next = p.start_addr; size = 0 })
      poke p.start_addr
          (record { next = node_end; size = mm_set_region (mm_set_size 0 size) index })
      poke node_end (record { next = null; size = 0 })
      pure (record p { size = size; last_node = node_end; allocated = 0 })

unfoldable pub init_from :
    (heap_s heap_e : Ptr) → (index : ℕ) → List Physmem → Cmd Memory (List Physmem)
init_from heap_s heap_e index [] = pure []
init_from heap_s heap_e index (p ∷ ps) = do
  q ← init_physmem heap_s heap_e index p
  qs ← init_from heap_s heap_e (suc index) ps
  pure (q ∷ qs)

unfoldable pub mm_init : (heap_s heap_e : Ptr) → Cmd Mm (Unit {0})
mm_init heap_s heap_e s =
    bind (init_from heap_s heap_e 0 s.physical_memories s.memory)
      (λ (ps, m). ok (tt, record { memory = m; physical_memories = ps }))
