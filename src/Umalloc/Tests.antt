-- ===== src/Umalloc/Tests.antt =====
-- An allocator of 32 blocks of 16 bytes at 1000, of which the first two and block 4 are in use.
use operating_system_cortex.Base.{
  ◌≡◌, ◌<◌, ◌==◌, refl, true, false, if◌then◌else◌, [], arith, Returns, ◌>>=◌, ℕ, ◌%◌,
}
use operating_system_cortex.Umalloc.{Umalloc, Heap, get_bitmap_value, umalloc, ufree}
use operating_system_cortex.Umalloc.Bitmap.{is_free, test_bit-zero}
use operating_system_cortex.Umalloc.Blocks.{IsArena, Allocated, umalloc-Allocated, umalloc-ufree}

abbrev desc : Umalloc
desc = record { arena = 1000; bitmap = 1512; block_size = 16; block_count = 32; used_blocks = 3 }

abbrev heap : Heap
heap = record {
  desc = desc;
  bytes = λ a. 0;
  words = λ a. if a == 1512 then 0xFFFFFFEC else 0;
  mm = record { memory = λ a. record { next = 0; size = 0 }; physical_memories = [] };
}

abbrev full : Heap
full = record heap { words = λ a. 0 }

desc-IsArena : IsArena desc
desc-IsArena = (refl, omega arith, refl, omega arith)

two_free : is_free heap 2 ≡ true
unfolding get_bitmap_value
two_free = refl

four_used : is_free heap 4 ≡ false
unfolding get_bitmap_value
four_used = refl

all_used : (k : ℕ) → k < 32 → is_free full k ≡ false
unfolding get_bitmap_value
all_used k h = test_bit-zero (k % 32)

umalloc-Allocated_example : Returns (Allocated heap) (umalloc heap)
umalloc-Allocated_example = umalloc-Allocated heap 2 desc-IsArena (omega arith) two_free

umalloc-ufree_example :
    Returns
      (λ _ h'. ((j : ℕ) → is_free h' j ≡ is_free heap j) × (h'.desc ≡ desc))
      ((umalloc >>= ufree) heap)
umalloc-ufree_example = umalloc-ufree heap 2 desc-IsArena (omega arith) two_free (omega arith)
