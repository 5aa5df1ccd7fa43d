-- ===== src/Mm/Free.antt =====
-- The free list as blocks: order, separateness and the number of free bytes.
use operating_system_cortex.Base.{
  ℕ, ◌+◌, ◌≤◌, ◌<◌, ◌≡◌, refl, false, ◌==◌, ltb, ==→eq, lt→ltb, le→ltb_false, Bool-cases, inl, inr,
  List, [], ◌∷◌, arith,
}
use operating_system_cortex.Base.{◌^◌, length, Returns, returns}
use operating_system_cortex.Mm.{Memory, mm_get_size, mm_list_insert}
use operating_system_cortex.Mm.Join.{
  Blocks, Block, AreSpaced, start_of, join, put_behind, insert_block,
}
use operating_system_cortex.Mm.Insert.{
  IsApart, start_of-join, join-AreSpaced, start_of-insert_block, mm_list_insert-insert_block,
}

abbrev pub total : List Block → ℕ
total [] = 0
total ((a, s) ∷ bs) = s + total bs

join-total : (a s : ℕ) (bs : List Block) → total (join (a, s) bs) ≡ s + total bs
unfolding join
join-total a s [] = refl
join-total a s ((b, t) ∷ bs) = ground arith

put_behind-total :
    (p t a s : ℕ) (bs : List Block) → total (put_behind (p, t) (a, s) bs) ≡ t + s + total bs
unfolding put_behind
put_behind-total p t a s bs = ground (arith, join-total p (t + s) bs, join-total a s bs)

insert_block-total :
    (p t a s : ℕ) (bs : List Block) → total (insert_block (p, t) (a, s) bs) ≡ t + s + total bs
unfolding insert_block
insert_block-total p t a s [] = put_behind-total p t a s []
insert_block-total p t a s ((b, u) ∷ bs) =
    ground (arith, put_behind-total p t a s ((b, u) ∷ bs), insert_block-total b u a s bs)

put_behind-AreSpaced :
    (last p t a s : ℕ) (bs : List Block)
    → AreSpaced last bs
    → (p + t ≤ a) × (p < a)
    → (a + s ≤ start_of bs last) × (a < start_of bs last)
    → AreSpaced last (put_behind (p, t) (a, s) bs)
unfolding put_behind
put_behind-AreSpaced last p t a s bs spaced behind fits = elim (Bool-cases (p + t == a)) [
  | inl e ↦ rw e (
      join-AreSpaced last p (t + s) bs (omega (arith, ==→eq (p + t) a e, fits.0))
        (omega (arith, behind.1, fits.1)) spaced)
  | inr e ↦ rw e (
    rw (start_of-join last a s bs) behind.0,
    rw (start_of-join last a s bs) behind.1,
    join-AreSpaced last a s bs fits.0 fits.1 spaced,
  )
]

insert_block-AreSpaced :
    (last p t a s : ℕ) (bs : List Block)
    → AreSpaced last ((p, t) ∷ bs)
    → (p + t ≤ a) × (p < a)
    → IsApart last (a, s) bs
    → AreSpaced last (insert_block (p, t) (a, s) bs)
unfolding insert_block
insert_block-AreSpaced last p t a s [] spaced behind apart =
    put_behind-AreSpaced last p t a s [] tt behind apart
insert_block-AreSpaced last p t a s ((b, u) ∷ bs) (sp, lt, spaced) behind (inl before, apart) =
    rw (lt→ltb b a before.1) (
      rw (start_of-insert_block last b u a s bs) sp,
      rw (start_of-insert_block last b u a s bs) lt,
      insert_block-AreSpaced last b u a s bs spaced before apart,
    )
insert_block-AreSpaced last p t a s ((b, u) ∷ bs) (sp, lt, spaced) behind (inr after, apart) =
    rw (le→ltb_false b a (omega (arith, after.1)))
      (put_behind-AreSpaced last p t a s ((b, u) ∷ bs) spaced behind after)

insert_block-root :
    (root a s : ℕ) (bs : List Block)
    → root < a
    → (cs : List Block) × (insert_block (root, 0) (a, s) bs ≡ (root, 0) ∷ cs)
unfolding insert_block put_behind
insert_block-root root a s [] above = (join (a, s) [], rw other refl)
  where
    other : (root + 0 == a) ≡ false
    other = ground arith
insert_block-root root a s ((b, u) ∷ bs) above = elim (Bool-cases (ltb b a)) [
  | inl e ↦ (insert_block (b, u) (a, s) bs, rw e refl)
  | inr e ↦ (join (a, s) ((b, u) ∷ bs), rw (e, other) refl)
]
  where
    other : (root + 0 == a) ≡ false
    other = ground arith

-- A free list of separate blocks, in the order of their addresses, with so many free bytes.
abbrev pub IsFreeList : (last root bytes : ℕ) → Unit {0} → Memory → Type 0
IsFreeList last root bytes _ m =
    (bs : List Block) × Blocks m last ((root, 0) ∷ bs)
    × AreSpaced last ((root, 0) ∷ bs)
    × (total bs ≡ bytes)

-- `mm_list_insert` keeps the free list a list of separate blocks in the order of their addresses,
-- and adds exactly the size of the new block to the free bytes. The new block must lie beside those
-- of the list and, with them, in one region of less than 2 ^ 28 bytes that does not begin at the
-- root node; fuel above the number of blocks is enough.
pub mm_list_insert-IsFreeList :
    (fuel : ℕ) (m : Memory) (root last a s start : ℕ) (bs : List Block)
    → Blocks m last ((root, 0) ∷ bs)
    → AreSpaced last ((root, 0) ∷ bs)
    → IsApart last (a, s) bs
    → mm_get_size (m a).size ≡ s
    → root < a
    → start ≤ a
    → start ≤ start_of bs last
    → last < start + 2 ^ 28
    → last < 2 ^ 32
    → length bs < fuel
    → Returns (IsFreeList last root (total bs + s)) (mm_list_insert fuel a root last m)
mm_list_insert-IsFreeList fuel m root last a s start bs is spaced apart size above low low' region
      word f =
    elim (mm_list_insert-insert_block fuel m root last a s start bs is spaced apart size above low
      low' region word f) [
        | returns u g eq (blocks, same) ↦ returns u g eq (
            headed g (insert_block (root, 0) (a, s) bs) blocks
              (insert_block-AreSpaced last root 0 a s bs spaced (omega arith, above) apart)
              (insert_block-total root 0 a s bs) (insert_block-root root a s bs above))
      ]
  where
    headed :
        (g : Memory) (new : List Block)
        → Blocks g last new
        → AreSpaced last new
        → total new ≡ 0 + s + total bs
        → ((cs : List Block) × (new ≡ (root, 0) ∷ cs))
        → IsFreeList last root (total bs + s) tt g
    headed g new blocks spaced sum (cs, e) =
        (cs, rw e at blocks, rw e at spaced, omega (arith, rw e at sum))
