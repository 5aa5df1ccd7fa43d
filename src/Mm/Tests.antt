-- ===== src/Mm/Tests.antt =====
-- A free list with the root node at 16, blocks at 104 and 232 and the last node at 400; the block
-- of 96 bytes that fills the gap between them is put back.
use operating_system_cortex.Base.{
  ◌≡◌, refl, ◌==◌, if◌then◌else◌, List, [], ◌∷◌, arith, Returns, inl, inr,
}
use operating_system_cortex.Mm.{Memory, mm_list_insert, mm_get_size}
use operating_system_cortex.Mm.Join.{Block, Blocks, AreSpaced, insert_block, put_behind, join}
use operating_system_cortex.Mm.Insert.{IsApart, Among, mm_list_insert-insert_block}
use operating_system_cortex.Mm.Free.{IsFreeList, mm_list_insert-IsFreeList}

abbrev memory : Memory
memory a =
    if a == 16
    then record { next = 104; size = 0 }
    else if a == 104
    then record { next = 232; size = 32 }
    else if a == 136
    then record { next = 0; size = 96 }
    else if a == 232
    then record { next = 400; size = 64 }
    else record { next = 0; size = 0 }

abbrev free : List Block
free = (104, 32) ∷ (232, 64) ∷ []

free-Blocks : Blocks memory 400 ((16, 0) ∷ free)
unfolding mm_get_size
free-Blocks = (
  λ e. omega (arith, e),
  refl,
  refl,
  (λ e. omega (arith, e), refl, refl, (λ e. omega (arith, e), refl, refl, tt)),
)

free-AreSpaced : AreSpaced 400 ((16, 0) ∷ free)
free-AreSpaced =
    (omega arith, omega arith, (omega arith, omega arith, (omega arith, omega arith, tt)))

gap-IsApart : IsApart 400 (136, 96) free
gap-IsApart =
    (inl (omega arith, omega arith), (inr (omega arith, omega arith), (omega arith, omega arith)))

gap_size : mm_get_size 96 ≡ 96
unfolding mm_get_size
gap_size = refl

mm_list_insert-insert_block_example :
    Returns
      (Among memory 400 136 ((16, 0) ∷ free) (insert_block (16, 0) (136, 96) free))
      (mm_list_insert 3 136 16 400 memory)
mm_list_insert-insert_block_example =
    mm_list_insert-insert_block 3 memory 16 400 136 96 100 free free-Blocks free-AreSpaced
      gap-IsApart gap_size (omega arith) (omega arith) (omega arith) (omega arith) (omega arith)
      (omega arith)

mm_list_insert-IsFreeList_example :
    Returns (IsFreeList 400 16 192) (mm_list_insert 3 136 16 400 memory)
mm_list_insert-IsFreeList_example =
    mm_list_insert-IsFreeList 3 memory 16 400 136 96 100 free free-Blocks free-AreSpaced gap-IsApart
      gap_size (omega arith) (omega arith) (omega arith) (omega arith) (omega arith) (omega arith)

-- All three become one block.
merged : insert_block (16, 0) (136, 96) free ≡ (16, 0) ∷ (104, 192) ∷ []
unfolding insert_block put_behind join
merged = refl
