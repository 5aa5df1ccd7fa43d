-- ===== src/Umalloc.antt =====
-- kernel/src/mm/umalloc.c: the allocator of blocks of one size, with a bitmap of the free ones; and
-- the thin layers pmalloc.c and bmalloc.c over the memory manager. Differences of addresses are taken
-- where they do not wrap; the bytes of the arena and the words of the bitmap, behind it, are two
-- functions of their addresses, and a division by 0 gives 0, as the processor's does.
pub mod Bitmap
pub mod Blocks
pub mod Tests
use operating_system_cortex.Base.{
  ℕ, zero, suc, ◌+◌, ◌-◌, ◌*◌, ◌/◌, ◌%◌, ◌^◌, Bool, true, false, ◌==◌, ltb, leb, ◌&&◌, ◌||◌, not,
  if◌then◌else◌, Option, none, some, u32, sub32, test_bit, set_bit, clear_bit, Run, Cmd, ok, panic,
  fault, hang, pure, stop, ◌>>=◌, ◌>>◌, bind, continue,
}
use operating_system_cortex.Dlist.{Ptr, null}
use operating_system_cortex.Bytes.{Bytes, memory_fill}
use operating_system_cortex.Mm.{Mm, mm_alloc, mm_free, mm_get_used, mm_get_free, mm_get_total}

-- `struct umalloc_desc`
pub record Umalloc : Type 0 where
  pub arena : Ptr
  pub bitmap : Ptr
  pub block_size : ℕ
  pub block_count : ℕ
  pub used_blocks : ℕ

-- An allocator with the memory that it uses: bytes, and words of 32 bits.
pub record Heap : Type 0 where
  pub desc : Umalloc
  pub bytes : Bytes
  pub words : Ptr → ℕ
  pub mm : Mm

-- `memory_fill`, for the bytes and for the words that lie in the range.
unfoldable pub fill : (dest : Ptr) → (byte size : ℕ) → Heap → Heap
fill dest byte size h = record h {
  bytes = memory_fill dest byte size h.bytes;
  words = λ a. if leb dest a && leb (a + 4) (dest + size) then byte * 0x01010101 else h.words a;
}

abbrev on_mm : {A : Type 0} → Cmd Mm A → Cmd Heap A
on_mm op h = bind (op h.mm) (λ (a, m). ok (a, record h { mm = m }))

-- `pmalloc` and `bmalloc`; the bank is the memory's index.
unfoldable pub pmalloc : (fuel : ℕ) → (count bank : ℕ) → Cmd Heap Ptr
pmalloc fuel count bank = do
  ptr ← on_mm (mm_alloc fuel (u32 (count * 512)) bank)
  if ptr == null then stop else pure ptr

unfoldable pub pcalloc : (fuel : ℕ) → (count bank : ℕ) → Cmd Heap Ptr
pcalloc fuel count bank = do
  ptr ← on_mm (mm_alloc fuel (u32 (count * 512)) bank)
  if ptr == null then stop else λ h. ok (ptr, fill ptr 0x00 (u32 (count * 512)) h)

unfoldable pub pfree : (fuel : ℕ) → (ptr : Ptr) → Cmd Heap (Unit {0})
pfree fuel ptr = on_mm (mm_free fuel ptr)

unfoldable pub pmalloc_get_used : (bank : ℕ) → Cmd Heap ℕ
pmalloc_get_used bank = on_mm (mm_get_used bank)

unfoldable pub pmalloc_get_free : (bank : ℕ) → Cmd Heap ℕ
pmalloc_get_free bank = on_mm (mm_get_free bank)

unfoldable pub pmalloc_get_total : (bank : ℕ) → Cmd Heap ℕ
pmalloc_get_total bank = on_mm (mm_get_total bank)

unfoldable pub bmalloc : (fuel : ℕ) → (size bank : ℕ) → Cmd Heap Ptr
bmalloc fuel size bank = do
  ptr ← on_mm (mm_alloc fuel size bank)
  if ptr == null then stop else pure ptr

unfoldable pub bcalloc : (fuel : ℕ) → (size bank : ℕ) → Cmd Heap Ptr
bcalloc fuel size bank = do
  ptr ← on_mm (mm_alloc fuel size bank)
  if ptr == null then stop else λ h. ok (ptr, fill ptr 0x00 size h)

unfoldable pub bfree : (fuel : ℕ) → (ptr : Ptr) → Cmd Heap (Unit {0})
bfree fuel ptr = on_mm (mm_free fuel ptr)

unfoldable pub bmalloc_get_used : (bank : ℕ) → Cmd Heap ℕ
bmalloc_get_used bank = on_mm (mm_get_used bank)

unfoldable pub bmalloc_get_free : (bank : ℕ) → Cmd Heap ℕ
bmalloc_get_free bank = on_mm (mm_get_free bank)

unfoldable pub bmalloc_get_total : (bank : ℕ) → Cmd Heap ℕ
bmalloc_get_total bank = on_mm (mm_get_total bank)

unfoldable pub index_to_addr : Umalloc → (index : ℕ) → Ptr
index_to_addr d index = u32 (d.arena + u32 (d.block_size * index))

unfoldable pub addr_to_index : Umalloc → (ptr : Ptr) → Option ℕ
addr_to_index d ptr =
    if ltb ptr d.arena || leb d.bitmap ptr
    then none
    else if not ((ptr - d.arena) % d.block_size == 0)
    then none
    else some ((ptr - d.arena) / d.block_size)

-- The address of the word of the bitmap that has the bit of a block.
abbrev pub word_of : Umalloc → (index : ℕ) → Ptr
word_of d index = d.bitmap + 4 * (index / 32)

unfoldable pub get_bitmap_value : Heap → (index : ℕ) → Bool
get_bitmap_value h index = test_bit (h.words (word_of h.desc index)) (index % 32)

unfoldable pub set_word : (a : Ptr) → (value : ℕ) → Heap → Heap
set_word a value h = record h { words = λ b. if b == a then value else h.words b }

-- The bit of a free block is set.
unfoldable pub clear_bit_in_bitmap : (index : ℕ) → Heap → Heap
clear_bit_in_bitmap index h =
    set_word (word_of h.desc index) (set_bit (h.words (word_of h.desc index)) (index % 32)) h

-- The first set bit of a word from `j` on, of `count` bits.
unfoldable pub first_set : (count j bitmask : ℕ) → Option ℕ
first_set zero j bitmask = none
first_set (suc count) j bitmask =
    let rest = first_set count (j + 1) bitmask in if test_bit bitmask j then some j else rest

-- The loop of `get_first_free_index`, from the word `i` on.
unfoldable pub scan : (count i : ℕ) → Heap → Option ℕ × Heap
scan zero i h = (none, h)
scan (suc count) i h =
    let rest = scan count (i + 1) h in
    let a = h.desc.bitmap + 4 * i in
    if h.words a == 0 then rest else elim (first_set 32 0 (h.words a)) [
      | none ↦ rest
      | some j ↦ (some (32 * i + j), set_word a (clear_bit (h.words a) j) h)
    ]

unfoldable pub get_first_free_index : Heap → Option ℕ × Heap
get_first_free_index h = scan (h.desc.block_count / 32) 0 h

-- `_umalloc`, once the search has ended.
unfoldable pub take_index : Option ℕ × Heap → Run (Ptr × Heap)
take_index (none, h) = panic
take_index (some index, h) = ok (
  index_to_addr h.desc index,
  record h { desc = record (h.desc) { used_blocks = u32 (h.desc.used_blocks + 1) } },
)

unfoldable pub umalloc : Cmd Heap Ptr
umalloc h = take_index (get_first_free_index h)

unfoldable pub ucalloc : Cmd Heap Ptr
ucalloc = do ptr ← umalloc; λ h. ok (ptr, fill ptr 0x00 h.desc.block_size h)

-- `ufree`, for the index of the block. `bfree failed` is the message of each panic.
unfoldable pub free_index : Option ℕ → Cmd Heap (Unit {0})
free_index none h = panic
free_index (some index) h =
    if get_bitmap_value h index
    then panic
    else if h.desc.used_blocks == 0
    then panic
    else ok (
      tt,
      clear_bit_in_bitmap index
          (record h { desc = record (h.desc) { used_blocks = h.desc.used_blocks - 1 } }),
    )

unfoldable pub ufree : (ptr : Ptr) → Cmd Heap (Unit {0})
ufree ptr h = free_index (addr_to_index h.desc ptr) h

unfoldable pub umalloc_get_used : Heap → ℕ
umalloc_get_used h = h.desc.used_blocks

-- The quotient, rounded up.
abbrev round_up : (n d : ℕ) → ℕ
round_up n d = if n % d == 0 then n / d else u32 (n / d + 1)

-- `(block_count + 32) & ~31`
unfoldable pub aligned_count : (block_count : ℕ) → ℕ
aligned_count block_count = u32 (block_count + 32) / 32 * 32

unfoldable pub umalloc_new : (fuel : ℕ) → (block_size block_count bank : ℕ) → Cmd Heap (Unit {0})
umalloc_new fuel block_size block_count bank = do
  let count = aligned_count block_count
  let arena_size = u32 (count * block_size)
  let pages = round_up (u32 (arena_size + round_up count 8)) 512
  arena ← pmalloc fuel pages bank
  if arena == null then stop else λ h. ok (
    tt,
    record (fill arena 0xFF (u32 (pages * 512)) h) {
      desc = record {
        arena = arena;
        bitmap = u32 (arena + arena_size);
        block_size = block_size;
        block_count = count;
        used_blocks = 0;
      };
    },
  )

unfoldable pub umalloc_delete : (fuel : ℕ) → Cmd Heap (Unit {0})
umalloc_delete fuel = do h ← (λ h. ok (h, h)); pfree fuel h.desc.arena
