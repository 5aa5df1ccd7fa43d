-- ===== src/Mm/Join.antt =====
-- Blocks of the free list in memory, and the two merges of `mm_list_insert`.
use operating_system_cortex.Base.{
  ℕ, ◌+◌, ◌^◌, ◌≤◌, ◌<◌, ◌≡◌, ◌≢◌, refl, ap, ◌∙◌, false, ◌==◌, ltb, ==_self, ne→==_false, ==→eq,
  if◌then◌else◌, Bool-cases, inl, inr, List, [], ◌∷◌, arith, u32, ok, Returns, returns,
}
use operating_system_cortex.Dlist.{Ptr, null}
use operating_system_cortex.Mm.{
  MmNode, Memory, mm_get_size, peek, poke, set_next, set_size, adjacent, merge_after,
}

-- A block of memory: its address and its size.
abbrev pub Block : Type 0
Block = Ptr × ℕ

abbrev pub start_of : List Block → (last : Ptr) → Ptr
start_of [] last = last
start_of ((a, s) ∷ bs) last = a

-- The nodes in memory are linked as the blocks stand, up to the last node.
abbrev pub Blocks : Memory → (last : Ptr) → List Block → Type 0
Blocks m last [] = Unit {0}
Blocks m last ((a, s) ∷ bs) =
    (a ≢ null) × (mm_get_size (m a).size ≡ s) × ((m a).next ≡ start_of bs last) × Blocks m last bs

-- The blocks stand by their addresses, and none reaches into the next one.
abbrev pub AreSpaced : (last : Ptr) → List Block → Type 0
AreSpaced last [] = Unit {0}
AreSpaced last ((a, s) ∷ bs) =
    (a + s ≤ start_of bs last) × (a < start_of bs last) × AreSpaced last bs

-- A block in front of others, merged with the first of them if it ends where that begins.
unfoldable pub join : Block → List Block → List Block
join (a, s) [] = (a, s) ∷ []
join (a, s) ((b, t) ∷ bs) = if a + s == b then (a, s + t) ∷ bs else (a, s) ∷ (b, t) ∷ bs

-- A block behind `prev`, merged with it if it begins where that ends.
unfoldable pub put_behind : (prev block : Block) → List Block → List Block
put_behind (p, t) (a, s) bs = if p + t == a then join (p, t + s) bs else (p, t) ∷ join (a, s) bs

-- A block put where it belongs in a list, whose first block is `prev`.
unfoldable pub insert_block : (prev block : Block) → List Block → List Block
insert_block prev block [] = put_behind prev block []
insert_block prev (a, s) ((b, t) ∷ bs) =
    let rest = insert_block (b, t) (a, s) bs in
    if ltb b a then prev ∷ rest else put_behind prev (a, s) ((b, t) ∷ bs)

-- The memory after a write of a node.
unfoldable pub written : Memory → Ptr → MmNode → Memory
written m p n a = if a == p then n else m a

pub written_self : (m : Memory) (p : Ptr) (n : MmNode) → written m p n p ≡ n
unfolding written
written_self m p n = rw (==_self p) refl

pub written_ne : (m : Memory) (p : Ptr) (n : MmNode) (a : Ptr) → a ≢ p → written m p n a ≡ m a
unfolding written
written_ne m p n a ne = rw (ne→==_false a p ne) refl

pub peek-ok : (p : Ptr) (m : Memory) → p ≢ null → peek p m ≡ ok (m p, m)
unfolding peek
peek-ok p m ne = rw (ne→==_false p null ne) refl

pub set_next-ok :
    (p q : Ptr) (m : Memory)
    → p ≢ null
    → set_next p q m ≡ ok (tt, written m p (record (m p) { next = q }))
unfolding set_next poke peek written
set_next-ok p q m ne = rw (ne→==_false p null ne, ne→==_false p null ne) refl

pub set_size-ok :
    (p : Ptr) (s : ℕ) (m : Memory)
    → p ≢ null
    → set_size p s m ≡ ok (tt, written m p (record (m p) { size = s }))
unfolding set_size poke peek written
set_size-ok p s m ne = rw (ne→==_false p null ne, ne→==_false p null ne) refl

-- Writes below the blocks do not change them.
pub Blocks-frame :
    {m : Memory} (g : Memory) (last x : Ptr) (bs : List Block)
    → x < start_of bs last
    → AreSpaced last bs
    → ((a : Ptr) → x < a → g a ≡ m a)
    → Blocks m last bs
    → Blocks g last bs
Blocks-frame g last x [] below spaced same is = tt
Blocks-frame {m} g last x ((a, s) ∷ bs) below (sp, lt, spaced) same (ne, size, next, is) = (
  ne,
  rw (same a below) size,
  rw (same a below) next,
  Blocks-frame {m = m} g last x bs (omega arith) spaced same is,
)

pub get_size_add :
    (f s : ℕ) → mm_get_size f + s < 2 ^ 28 → mm_get_size (u32 (f + s)) ≡ mm_get_size f + s
unfolding mm_get_size
get_size_add f s small = omega arith

pub adjacent-ok :
    (p f q : ℕ) → p + mm_get_size f < 2 ^ 32 → adjacent p f q ≡ (p + mm_get_size f == q)
unfolding adjacent
adjacent-ok p f q small = ap (λ (n : ℕ). n == q) (omega arith)

-- What `merge_after` leaves: the block and those behind it, joined, and nothing else is written.
abbrev pub Joined : Memory → (last a s : ℕ) → List Block → Unit {0} → Memory → Type 0
Joined m last a s bs _ g = Blocks g last (join (a, s) bs) × ((x : Ptr) → x ≢ a → g x ≡ m x)

pub start_le_last : (last : Ptr) (bs : List Block) → AreSpaced last bs → start_of bs last ≤ last
start_le_last last [] spaced = omega arith
start_le_last last ((a, s) ∷ bs) (sp, lt, spaced) = omega (arith, start_le_last last bs spaced)

module _ (m : Memory) (last a s iter : ℕ) (iter_ok : iter ≢ null) (a_ok : a ≢ null)
    (last_ok : last ≢ null) (size : mm_get_size (m a).size ≡ s) (word : last < 2 ^ 32)
    (near : last < a + 2 ^ 28) where
  linked : (q : Ptr) → Memory
  linked q = written m a (record (m a) { next = q })

  linked-Blocks :
      (bs : List Block)
      → a < start_of bs last
      → AreSpaced last bs
      → Blocks m last bs
      → Blocks (linked (start_of bs last)) last ((a, s) ∷ bs)
  unfolding linked
  linked-Blocks bs below spaced is = (
    a_ok,
    rw (written_self m a (record (m a) { next = start_of bs last })) size,
    rw (written_self m a (record (m a) { next = start_of bs last })) refl,
    Blocks-frame {m = m} (linked (start_of bs last)) last a bs below spaced
        (λ x h. written_ne m a _ x (λ e. omega (arith, h, e))) is,
  )

  others : (q x : Ptr) → x ≢ a → linked q x ≡ m x
  unfolding linked
  others q x ne = written_ne m a (record (m a) { next = q }) x ne

  -- The block behind is taken in.
  taken : (b : Ptr) → Memory
  taken b =
      let g = written m a (record (m a) { size = u32 ((m a).size + mm_get_size (m b).size) }) in
      written g a (record (g a) { next = (m b).next })

  taken_others : (b x : Ptr) → x ≢ a → taken b x ≡ m x
  unfolding taken
  taken_others b x ne = written_ne _ a _ x ne ∙ written_ne m a _ x ne

  taken-Blocks :
      (b t : ℕ) (bs : List Block)
      → a + s ≡ b
      → a < b
      → mm_get_size (m b).size ≡ t
      → (m b).next ≡ start_of bs last
      → b + t ≤ start_of bs last
      → b < start_of bs last
      → AreSpaced last bs
      → Blocks m last bs
      → Blocks (taken b) last ((a, s + t) ∷ bs)
  unfolding taken
  taken-Blocks b t bs at below size' next' sp lt spaced is = (
    a_ok,
    rw (written_self _ a _, written_self m a _) sum,
    rw (written_self _ a _) next',
    Blocks-frame {m = m} (taken b) last a bs (omega arith) spaced
        (λ x h. taken_others b x (λ e. omega (arith, h, e))) is,
  )
    where
      sum : mm_get_size (u32 ((m a).size + mm_get_size (m b).size)) ≡ s + t
      sum =
          get_size_add (m a).size (mm_get_size (m b).size)
            (omega (arith, size, size', start_le_last last bs spaced))
          ∙ rw (size, size') refl

  pub merge_after-Joined :
      (bs : List Block)
      → (m iter).next ≡ start_of bs last
      → a + s ≤ start_of bs last
      → a < start_of bs last
      → AreSpaced last bs
      → Blocks m last bs
      → Returns (Joined m last a s bs) (merge_after a iter last m)
  unfolding merge_after join linked taken
  merge_after-Joined [] next fits below spaced is = elim (Bool-cases (adjacent a (m a).size last)) [
    | inl c ↦
        returns tt (linked last)
          (rw
            (
              peek-ok iter m iter_ok,
              next,
              peek-ok last m last_ok,
              peek-ok a m a_ok,
              c,
              ==_self last,
            )
            (set_next-ok a last m a_ok))
          (linked-Blocks [] below spaced is, others last)
    | inr c ↦
        returns tt (linked last)
          (rw (peek-ok iter m iter_ok, next, peek-ok last m last_ok, peek-ok a m a_ok, c)
            (set_next-ok a last m a_ok))
          (linked-Blocks [] below spaced is, others last)
  ]
  merge_after-Joined ((b, t) ∷ bs) next fits below (sp, lt, spaced) (ne, size', next', is) =
      elim (Bool-cases (a + s == b)) [
        | inr c ↦
            returns tt (linked b)
              (rw (peek-ok iter m iter_ok, next, peek-ok b m ne, peek-ok a m a_ok, adj, c)
                (set_next-ok a b m a_ok))
              (
                rw c (linked-Blocks ((b, t) ∷ bs) below (sp, lt, spaced) (ne, size', next', is)),
                others b,
              )
        | inl c ↦
            returns tt (taken b)
              (rw
                (
                  peek-ok iter m iter_ok,
                  next,
                  peek-ok b m ne,
                  peek-ok a m a_ok,
                  adj,
                  c,
                  not_last,
                  set_size-ok a _ m a_ok,
                )
                (set_next-ok a _ _ a_ok))
              (
                rw c (taken-Blocks b t bs (==→eq (a + s) b c) below size' next' sp lt spaced is),
                taken_others b,
              )
      ]
    where
      b_le : b < last
      b_le = omega (arith, start_le_last last bs spaced)

      adj : adjacent a (m a).size b ≡ (a + s == b)
      adj = adjacent-ok a (m a).size b (omega (arith, size, b_le)) ∙ ap (λ (n : ℕ). a + n == b) size

      not_last : (b == last) ≡ false
      not_last = ne→==_false b last (λ e. omega (arith, e, b_le))
