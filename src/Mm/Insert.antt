-- ===== src/Mm/Insert.antt =====
-- `mm_list_insert` keeps the free list as a list of separate blocks, and merges what is adjacent.
use operating_system_cortex.Base.{
  ℕ, zero, suc, ◌+◌, ◌^◌, ◌≤◌, ◌<◌, ◌≡◌, ◌≢◌, ◌⊎◌, refl, sym, ap, ◌∙◌, true, false, ◌==◌, ==_self,
  ne→==_false, ==→eq, lt→ltb, le→ltb_false, if◌then◌else◌, Bool-cases, inl, inr, List, [], ◌∷◌, map,
  mem, length, arith, u32, Cmd, Returns, returns, pure, ◌>>=◌, ◌>>◌,
}
use operating_system_cortex.Dlist.{Ptr, null}
use operating_system_cortex.Mm.{
  Memory, mm_get_size, set_next, find_before, adjacent, merge_before, merge_after, mm_list_insert,
}
use operating_system_cortex.Mm.Join.{
  Block, Blocks, AreSpaced, start_of, join, put_behind, insert_block, written, written_self,
  written_ne, peek-ok, set_next-ok, set_size-ok, Blocks-frame, get_size_add, adjacent-ok,
  start_le_last, merge_after-Joined,
}

-- The block lies beside each of the others, and below the last node.
abbrev pub IsApart : (last : Ptr) → Block → List Block → Type 0
IsApart last (a, s) [] = (a + s ≤ last) × (a < last)
IsApart last (a, s) ((b, t) ∷ bs) =
    (((b + t ≤ a) × (b < a)) ⊎ ((a + s ≤ b) × (a < b))) × IsApart last (a, s) bs

pub start_of-join : (last a s : ℕ) (bs : List Block) → start_of (join (a, s) bs) last ≡ a
unfolding join
start_of-join last a s [] = refl
start_of-join last a s ((b, t) ∷ bs) = ground arith

pub join-AreSpaced :
    (last a s : ℕ) (bs : List Block)
    → a + s ≤ start_of bs last
    → a < start_of bs last
    → AreSpaced last bs
    → AreSpaced last (join (a, s) bs)
unfolding join
join-AreSpaced last a s [] fits below spaced = (fits, below, tt)
join-AreSpaced last a s ((b, t) ∷ bs) fits below (sp, lt, spaced) = elim (Bool-cases (a + s == b)) [
  | inl e ↦ rw e (omega (arith, ==→eq (a + s) b e), omega arith, spaced)
  | inr e ↦ rw e (fits, below, (sp, lt, spaced))
]

-- The steps behind the search.
abbrev finish : (node iter last : Ptr) → Cmd Memory (Unit {0})
finish node iter last = do
  joined ← merge_before node iter
  merge_after joined iter last
  if joined == iter then pure tt else set_next iter joined

-- The blocks after a block was put among them; nothing but it and the free list was written.
abbrev pub Among :
    Memory → (last : Ptr) → (node : Ptr) → (old new : List Block) → Unit {0} → Memory → Type 0
Among m last node old new _ g =
    Blocks g last new
    × ((x : Ptr) → x ≢ node → mem x (map (λ (b : Block). b.0) old) ≡ false → g x ≡ m x)

module _ (m : Memory) (last p t a s : ℕ) (bs : List Block) (is : Blocks m last ((p, t) ∷ bs))
    (spaced : AreSpaced last bs) (size : mm_get_size (m a).size ≡ s) (word : last < 2 ^ 32)
    (near : last < a + 2 ^ 28) (near_prev : (t ≡ 0) ⊎ (last < p + 2 ^ 28))
    (behind : (p + t ≤ a) × (p < a))
    (fits : (a + s ≤ start_of bs last) × (a < start_of bs last)) where
  a_ok : a ≢ null
  a_ok e = omega (arith, e, behind.1)

  last_ok : last ≢ null
  last_ok e = omega (arith, e, fits.1, start_le_last last bs spaced)

  adj : adjacent p (m p).size a ≡ (p + t == a)
  adj =
      adjacent-ok p (m p).size a (omega (arith, is.1, fits.1, start_le_last last bs spaced, behind))
      ∙ ap (λ (n : ℕ). p + n == a) is.1

  grown : Memory
  grown = written m p (record (m p) { size = u32 ((m p).size + mm_get_size (m a).size) })

  not_prev : (x : Ptr) → mem x (map (λ (b : Block). b.0) ((p, t) ∷ bs)) ≡ false → x ≢ p
  not_prev x out e = ground (arith, out, e)

  grown_others : (x : Ptr) → x ≢ p → grown x ≡ m x
  unfolding grown
  grown_others x ne = written_ne m p _ x ne

  near_p : p + t ≡ a → last < p + 2 ^ 28
  near_p at = elim near_prev [ inl z ↦ absurd (omega (arith, z, at, behind.1)) | inr n ↦ n ]

  grown_size : p + t ≡ a → mm_get_size (grown p).size ≡ t + s
  unfolding grown
  grown_size at =
      rw (written_self m p (record (m p) { size = u32 ((m p).size + mm_get_size (m a).size) })) sum
    where
      sum : mm_get_size (u32 ((m p).size + mm_get_size (m a).size)) ≡ t + s
      sum =
          get_size_add (m p).size (mm_get_size (m a).size)
            (omega (arith, is.1, size, near_p at, fits.1, fits.0, at, start_le_last last bs spaced))
          ∙ rw (is.1, size) refl

  grown_next : (grown p).next ≡ start_of bs last
  unfolding grown
  grown_next =
      rw (written_self m p (record (m p) { size = u32 ((m p).size + mm_get_size (m a).size) })) is.2

  grown-Blocks : Blocks grown last bs
  grown-Blocks =
      Blocks-frame {m = m} grown last p bs (omega (arith, behind.1, fits.1)) spaced
        (λ x h. grown_others x (λ e. omega (arith, h, e))) is.3

  finish-joined :
      p + t ≡ a → Returns (Among m last a ((p, t) ∷ bs) (join (p, t + s) bs)) (finish a p last m)
  unfolding merge_before grown
  finish-joined at =
      elim (merge_after-Joined grown last p (t + s) p is.0 is.0 last_ok (grown_size at) word
        (near_p at) bs grown_next (omega (arith, at, fits.0)) (omega (arith, behind.1, fits.1))
        spaced grown-Blocks) [
          | returns u g eq (blocks, same) ↦
              returns tt g
                (rw
                  (
                    peek-ok p m is.0,
                    peek-ok a m a_ok,
                    adj,
                    here,
                    set_size-ok p _ m is.0,
                    eq,
                    ==_self p,
                  )
                  refl)
                (blocks, λ x nx out. same x (not_prev x out) ∙ grown_others x (not_prev x out))
        ]
    where
      here : (p + t == a) ≡ true
      here = rw at (==_self a)

  finish-apart :
      (p + t == a) ≡ false
      → Returns (Among m last a ((p, t) ∷ bs) ((p, t) ∷ join (a, s) bs)) (finish a p last m)
  unfolding merge_before
  finish-apart other =
      elim (merge_after-Joined m last a s p is.0 a_ok last_ok size word near bs is.2 fits.0 fits.1
        spaced is.3) [
          | returns u g eq (blocks, same) ↦
              returns tt (written g p (record (g p) { next = a }))
                (rw (peek-ok p m is.0, peek-ok a m a_ok, adj, other, eq, ne→==_false a p ne)
                  (set_next-ok p a g is.0))
                (
                  (
                    is.0,
                    rw (written_self g p (record (g p) { next = a }), same p (λ e. ne (sym e)))
                        is.1,
                    rw (written_self g p (record (g p) { next = a }), start_of-join last a s bs)
                        refl,
                    Blocks-frame {m = g} (written g p (record (g p) { next = a })) last p
                        (join (a, s) bs) (rw (start_of-join last a s bs) behind.1)
                        (join-AreSpaced last a s bs fits.0 fits.1 spaced)
                        (λ x h. written_ne g p _ x (λ e. omega (arith, h, e))) blocks,
                  ),
                  λ x nx out. written_ne g p _ x (not_prev x out) ∙ same x nx,
                )
        ]
    where
      ne : a ≢ p
      ne e = omega (arith, e, behind.1)

  finish-put :
      Returns (Among m last a ((p, t) ∷ bs) (put_behind (p, t) (a, s) bs)) (finish a p last m)
  unfolding put_behind
  finish-put = elim (Bool-cases (p + t == a)) [
    | inl e ↦ rw e (finish-joined (==→eq (p + t) a e))
    | inr e ↦ rw e (finish-apart e)
  ]

-- A node below the first block is none of the blocks.
below-not_mem :
    (last p : Ptr) (bs : List Block)
    → p < start_of bs last
    → AreSpaced last bs
    → mem p (map (λ (b : Block). b.0) bs) ≡ false
below-not_mem last p [] below spaced = refl
below-not_mem last p ((b, u) ∷ bs) below (sp, lt, spaced) =
    rw (ne→==_false p b (λ e. omega (arith, e, below)))
      (below-not_mem last p bs (omega arith) spaced)

find_from : (fuel : ℕ) → (node iter last : Ptr) → Cmd Memory (Unit {0})
find_from fuel node iter last = do iter ← find_before fuel node iter; finish node iter last

pub start_of-insert_block :
    (last p t a s : ℕ) (bs : List Block) → start_of (insert_block (p, t) (a, s) bs) last ≡ p
unfolding insert_block put_behind
start_of-insert_block last p t a s [] = ground (arith, start_of-join last p (t + s) [])
start_of-insert_block last p t a s ((b, u) ∷ bs) =
    ground (arith, start_of-join last p (t + s) ((b, u) ∷ bs))

insert_from :
    (fuel : ℕ) (m : Memory) (last p t a s : ℕ) (bs : List Block)
    → Blocks m last ((p, t) ∷ bs)
    → AreSpaced last ((p, t) ∷ bs)
    → mm_get_size (m a).size ≡ s
    → last < 2 ^ 32
    → last < a + 2 ^ 28
    → (t ≡ 0) ⊎ (last < p + 2 ^ 28)
    → (p + t ≤ a) × (p < a)
    → IsApart last (a, s) bs
    → (start : Ptr) → last < start + 2 ^ 28
    → start ≤ start_of bs last
    → length bs < fuel
    → Returns
        (Among m last a ((p, t) ∷ bs) (insert_block (p, t) (a, s) bs))
        (find_from fuel a p last m)
unfolding find_from find_before insert_block put_behind
insert_from zero m last p t a s bs is spaced size word near near_prev behind apart start region low
      f =
    absurd (omega arith)
insert_from (suc fuel) m last p t a s [] is spaced size word near near_prev behind apart start
      region low f =
    rw (peek-ok p m is.0, is.2, le→ltb_false last a (omega (arith, apart.1)))
      (finish-put m last p t a s [] is tt size word near near_prev behind apart)
insert_from (suc fuel) m last p t a s ((b, u) ∷ bs) is (sp, lt, spaced) size word near near_prev
      behind (side, apart) start region low f =
    elim side [
      | inl before ↦
          elim (insert_from fuel m last b u a s bs is.3 spaced size word near (inr (omega arith))
            before apart start region (omega (arith, spaced.1, low)) (omega arith)) [
              | returns v g eq (blocks, same) ↦
                  returns v g (rw (peek-ok p m is.0, is.2, lt→ltb b a before.1) eq) (
                    rw (lt→ltb b a before.1) (
                      is.0,
                      rw
                          (same p (λ e. omega (arith, e, behind.1))
                            (below-not_mem last p ((b, u) ∷ bs) lt spaced))
                          is.1,
                      rw
                          (
                            same p (λ e. omega (arith, e, behind.1))
                                (below-not_mem last p ((b, u) ∷ bs) lt spaced),
                            start_of-insert_block last b u a s bs,
                          )
                          is.2,
                      blocks,
                    ),
                    λ x nx out. same x nx (ground (arith, out)),
                  )
            ]
      | inr after ↦
          rw (peek-ok p m is.0, is.2, le→ltb_false b a (omega (arith, after.1)))
            (finish-put m last p t a s ((b, u) ∷ bs) is spaced size word near near_prev behind
              after)
    ]

-- `mm_list_insert` puts a block among the blocks of the free list, whose first is the empty block
-- of the root node, and merges it with the blocks before and behind it where they are adjacent. It
-- writes no node but its own and those of the free list. The blocks must be separate and in the
-- order of their addresses, the new one beside them, and all in one region of less than 2 ^ 28
-- bytes; fuel above the number of blocks is enough.
pub mm_list_insert-insert_block :
    (fuel : ℕ) (m : Memory) (root last a s start : ℕ) (bs : List Block)
    → Blocks m last ((root, 0) ∷ bs)
    → AreSpaced last ((root, 0) ∷ bs)
    → IsApart last (a, s) bs
    → mm_get_size (m a).size ≡ s
    → root < a
    → start ≤ a
    → start ≤ start_of bs last
    → last < start + 2 ^ 28
    → last < 2 ^ 32
    → length bs < fuel
    → Returns
        (Among m last a ((root, 0) ∷ bs) (insert_block (root, 0) (a, s) bs))
        (mm_list_insert fuel a root last m)
unfolding mm_list_insert find_from
mm_list_insert-insert_block fuel m root last a s start bs is spaced apart size above low low' region
      word f =
    rw (le→ltb_false a root (omega arith), le→ltb_false last a (below_last bs apart))
      (insert_from fuel m last root 0 a s bs is spaced size word (omega arith) (inl refl)
        (omega arith, above) apart start region low' f)
  where
    below_last : (bs : List Block) → IsApart last (a, s) bs → a ≤ last
    below_last [] apart = omega (arith, apart.1)
    below_last ((b, u) ∷ bs) apart = below_last bs apart.1
