-- ===== src/Umalloc/Blocks.antt =====
-- Allocating and freeing blocks in kernel/src/mm/umalloc.c.
use operating_system_cortex.Base.{
  ℕ, suc, ◌+◌, ◌-◌, ◌*◌, ◌/◌, ◌%◌, ◌^◌, ◌<◌, ◌≡◌, ◌≢◌, inl, inr, refl, sym, ap, ◌∙◌, false≢true,
  true, false, ◌==◌, Bool-cases, ltb, leb, ==_self, ==→eq, ne→==_false, ==_false→ne, none, some,
  arith, test_bit, test_bit-set_bit, test_bit-clear_bit, u32, Returns, returns, bind-Returns, ◌>>=◌,
  panic,
}
use native.Mathlib.Nat.{mul-div_right, mul-mod_right, mul-suc, mul-le-mul_left}
use operating_system_cortex.Dlist.{Ptr}
use operating_system_cortex.Umalloc.{
  Umalloc, Heap, word_of, get_bitmap_value, set_word, clear_bit_in_bitmap, get_first_free_index,
  scan, index_to_addr, addr_to_index, take_index, umalloc, ufree, free_index,
}
use operating_system_cortex.Umalloc.Bitmap.{is_free, taken, Scanned, scan-Scanned}

-- The block at an index, where nothing wraps.
abbrev pub block_at : Umalloc → (index : ℕ) → Ptr
block_at d k = d.arena + d.block_size * k

-- Other blocks are free as before.
abbrev pub SameBut : (k : ℕ) → Heap → Heap → Type 0
SameBut k h h' = (j : ℕ) → j ≢ k → is_free h' j ≡ is_free h j

same_index : (j k : ℕ) → j / 32 ≡ k / 32 → j % 32 ≡ k % 32 → j ≡ k
same_index j k p q = omega (arith, p, q)

-- A write of the word of a block.
set_word_other :
    (h : Heap) (w j k : ℕ)
    → j / 32 ≢ k / 32
    → is_free (set_word (word_of h.desc k) w h) j ≡ is_free h j
unfolding get_bitmap_value set_word
set_word_other h w j k ne =
    rw (ne→==_false (word_of h.desc j) (word_of h.desc k) (λ e. ne (omega (arith, e)))) refl

set_word_same :
    (h : Heap) (w j k : ℕ)
    → j / 32 ≡ k / 32
    → is_free (set_word (word_of h.desc k) w h) j ≡ test_bit w (j % 32)
unfolding get_bitmap_value set_word
set_word_same h w j k e = rw (e, ==_self (word_of h.desc k)) refl

taken_same : (h : Heap) (k : ℕ) → is_free (taken (some k) h) k ≡ false
taken_same h k =
    set_word_same h _ k k refl
    ∙ rw (test_bit-clear_bit (h.words (word_of h.desc k)) (k % 32) (k % 32), ==_self (k % 32)) refl

is_free-word :
    (h : Heap) (j k : ℕ)
    → j / 32 ≡ k / 32
    → is_free h j ≡ test_bit (h.words (word_of h.desc k)) (j % 32)
unfolding get_bitmap_value
is_free-word h j k e = rw e refl

taken-SameBut : (h : Heap) (k : ℕ) → SameBut k h (taken (some k) h)
taken-SameBut h k j ne = elim (Bool-cases (j / 32 == k / 32)) [
  | inl e ↦
      let p : j / 32 ≡ k / 32 = ==→eq (j / 32) (k / 32) e in
      set_word_same h _ j k p
      ∙ rw
          (
            test_bit-clear_bit (h.words (word_of h.desc k)) (k % 32) (j % 32),
            ne→==_false (k % 32) (j % 32) (λ q. ne (same_index j k p (sym q))),
          )
          (sym (is_free-word h j k p))
  | inr e ↦ set_word_other h _ j k (==_false→ne (j / 32) (k / 32) e)
]

freed_same : (h : Heap) (k : ℕ) → is_free (clear_bit_in_bitmap k h) k ≡ true
unfolding clear_bit_in_bitmap
freed_same h k =
    set_word_same h _ k k refl
    ∙ rw (test_bit-set_bit (h.words (word_of h.desc k)) (k % 32) (k % 32), ==_self (k % 32)) refl

freed-SameBut : (h : Heap) (k : ℕ) → SameBut k h (clear_bit_in_bitmap k h)
unfolding clear_bit_in_bitmap
freed-SameBut h k j ne = elim (Bool-cases (j / 32 == k / 32)) [
  | inl e ↦
      let p : j / 32 ≡ k / 32 = ==→eq (j / 32) (k / 32) e in
      set_word_same h _ j k p
      ∙ rw
          (
            test_bit-set_bit (h.words (word_of h.desc k)) (k % 32) (j % 32),
            ne→==_false (k % 32) (j % 32) (λ q. ne (same_index j k p (sym q))),
          )
          (sym (is_free-word h j k p))
  | inr e ↦ set_word_other h _ j k (==_false→ne (j / 32) (k / 32) e)
]

-- The blocks fill the arena, in front of the bitmap of whole words.
abbrev pub IsArena : Umalloc → Type 0
IsArena d =
    (d.block_count % 32 ≡ 0)
    × (0 < d.block_size)
    × (d.bitmap ≡ d.arena + d.block_size * d.block_count)
    × (d.bitmap < 2 ^ 32)

abbrev used_up : Heap → Heap
used_up h = record h { desc = record (h.desc) { used_blocks = u32 (h.desc.used_blocks + 1) } }

-- A block that was free, the first one, is allocated, and no other changes.
abbrev pub Allocated : Heap → Ptr → Heap → Type 0
Allocated h ptr h' =
    (k : ℕ) × (k < h.desc.block_count)
    × (ptr ≡ block_at h.desc k)
    × (is_free h k ≡ true)
    × ((j : ℕ) → j < k → is_free h j ≡ false)
    × (is_free h' k ≡ false)
    × SameBut k h h'
    × (h'.desc ≡ record (h.desc) { used_blocks = u32 (h.desc.used_blocks + 1) })

block_at-lt : (d : Umalloc) (k : ℕ) → IsArena d → k < d.block_count → block_at d k < d.bitmap
block_at-lt d k (_, positive, at, _) h = omega (
  arith,
  positive,
  at,
  mul-le-mul_left {m = suc k} {n = d.block_count} d.block_size h,
  mul-suc d.block_size k,
)

index_to_addr-block_at :
    (d : Umalloc) (k : ℕ) → IsArena d → k < d.block_count → index_to_addr d k ≡ block_at d k
unfolding index_to_addr
index_to_addr-block_at d k is h = omega (arith, block_at-lt d k is h, is.3)

addr_to_index-block_at :
    (d : Umalloc) (k : ℕ) → IsArena d → k < d.block_count → addr_to_index d (block_at d k) ≡ some k
unfolding addr_to_index
addr_to_index-block_at d k is h =
    rw (above, below, offset, mul-mod_right d.block_size k, mul-div_right k is.1) refl
  where
    above : ltb (block_at d k) d.arena ≡ false
    above = ground arith

    below : leb d.bitmap (block_at d k) ≡ false
    below = ground (arith, block_at-lt d k is h)

    offset : block_at d k - d.arena ≡ d.block_size * k
    offset = omega arith

taken_desc : (h : Heap) (k : ℕ) → (taken (some k) h).desc ≡ h.desc
unfolding set_word
taken_desc h k = refl

freed_desc : (h : Heap) (k : ℕ) → (clear_bit_in_bitmap k h).desc ≡ h.desc
unfolding clear_bit_in_bitmap set_word
freed_desc h k = refl

taken_none : (h : Heap) → take_index (none, h) ≡ panic
unfolding take_index
taken_none h = refl

is_free-used_up : (h : Heap) (j : ℕ) → is_free (used_up h) j ≡ is_free h j
unfolding get_bitmap_value
is_free-used_up h j = refl

-- The allocation of the block that the search found.
take_index-Allocated :
    (h : Heap) (k : ℕ)
    → IsArena h.desc
    → k < h.desc.block_count
    → is_free h k ≡ true
    → ((j : ℕ) → j < k → is_free h j ≡ false)
    → Returns (Allocated h) (take_index (some k, taken (some k) h))
unfolding take_index
take_index-Allocated h k is small free before =
    returns (index_to_addr (taken (some k) h).desc k) (used_up (taken (some k) h)) refl (
      k,
      small,
      rw (taken_desc h k) (index_to_addr-block_at h.desc k is small),
      free,
      before,
      is_free-used_up (taken (some k) h) k ∙ taken_same h k,
      (λ j ne. is_free-used_up (taken (some k) h) j ∙ taken-SameBut h k j ne),
      rw (taken_desc h k) refl,
    )

-- `umalloc`, while a block is free, returns the address of the first free one, which is used then, and
-- no other block changes: a block in use is never handed out. The arena must lie in front of a bitmap
-- of whole words.
pub umalloc-Allocated :
    (h : Heap) (k : ℕ)
    → IsArena h.desc
    → k < h.desc.block_count
    → is_free h k ≡ true
    → Returns (Allocated h) (umalloc h)
unfolding umalloc get_first_free_index
umalloc-Allocated h k is small free = found (scan-Scanned (h.desc.block_count / 32) 0 h)
  where
    found :
        Scanned (h.desc.block_count / 32) 0 h (scan (h.desc.block_count / 32) 0 h)
        → Returns (Allocated h) (take_index (scan (h.desc.block_count / 32) 0 h))
    found (r, e, inl (eq, all)) =
        absurd (false≢true (sym (all k (omega arith) (omega (arith, small, is.0))) ∙ free))
    found (r, e, inr (first, eq, low, high, set, before)) =
        rw (e, eq)
          (take_index-Allocated h first is (omega (arith, high, is.0)) set
            (λ j l. before j (omega arith) l))

-- `umalloc` panics if no block is free.
pub umalloc-panic :
    (h : Heap) → ((k : ℕ) → k < h.desc.block_count → is_free h k ≡ false) → umalloc h ≡ panic
unfolding umalloc get_first_free_index
umalloc-panic h full = found (scan-Scanned (h.desc.block_count / 32) 0 h)
  where
    found :
        Scanned (h.desc.block_count / 32) 0 h (scan (h.desc.block_count / 32) 0 h)
        → take_index (scan (h.desc.block_count / 32) 0 h) ≡ panic
    found (r, e, inl (eq, all)) = rw (e, eq) (taken_none h)
    found (r, e, inr (first, eq, low, high, set, before)) =
        absurd (false≢true (sym (full first (omega (arith, high))) ∙ set))

abbrev fewer_used : Heap → Heap
fewer_used h = record h { desc = record (h.desc) { used_blocks = h.desc.used_blocks - 1 } }

is_free-fewer_used : (h : Heap) (j : ℕ) → is_free (fewer_used h) j ≡ is_free h j
unfolding get_bitmap_value
is_free-fewer_used h j = refl

-- `ufree` of a block in use makes it free, and no other block changes.
pub ufree-free :
    (h : Heap) (k : ℕ)
    → IsArena h.desc
    → k < h.desc.block_count
    → is_free h k ≡ false
    → h.desc.used_blocks ≢ 0
    → Returns
        (λ _ h'. (is_free h' k ≡ true) × SameBut k h h' × (h'.desc ≡ (fewer_used h).desc))
        (ufree (block_at h.desc k) h)
unfolding ufree free_index
ufree-free h k is small used some_used =
    rw (addr_to_index-block_at h.desc k is small, used, ne→==_false h.desc.used_blocks 0 some_used)
      (returns tt (clear_bit_in_bitmap k (fewer_used h)) refl (
        freed_same (fewer_used h) k,
        (λ j ne. freed-SameBut (fewer_used h) k j ne ∙ is_free-fewer_used h j),
        freed_desc (fewer_used h) k,
      ))

-- `ufree` of a block that is free panics.
pub ufree-panic :
    (h : Heap) (k : ℕ)
    → IsArena h.desc
    → k < h.desc.block_count
    → is_free h k ≡ true
    → ufree (block_at h.desc k) h ≡ panic
unfolding ufree free_index
ufree-panic h k is small free = rw (addr_to_index-block_at h.desc k is small, free) refl

-- Allocating a block and freeing it again, while a block is free, leaves every block as it was, and
-- the count of the blocks in use too, if it does not wrap.
pub umalloc-ufree :
    (h : Heap) (k : ℕ)
    → IsArena h.desc
    → k < h.desc.block_count
    → is_free h k ≡ true
    → h.desc.used_blocks + 1 < 2 ^ 32
    → Returns
        (λ _ h'. ((j : ℕ) → is_free h' j ≡ is_free h j) × (h'.desc ≡ h.desc))
        ((umalloc >>= ufree) h)
umalloc-ufree h k is small free no_wrap = bind-Returns (umalloc-Allocated h k is small free) freed
  where
    count : u32 (h.desc.used_blocks + 1) ≡ h.desc.used_blocks + 1
    count = omega (arith, no_wrap)

    minus : h.desc.used_blocks + 1 - 1 ≡ h.desc.used_blocks
    minus = omega arith

    restored :
        (h₁ h₂ : Heap) (i : ℕ)
        → is_free h i ≡ true
        → SameBut i h h₁
        → is_free h₂ i ≡ true
        → SameBut i h₁ h₂
        → (j : ℕ) → is_free h₂ j ≡ is_free h j
    restored h₁ h₂ i was same now same' j = elim (Bool-cases (j == i)) [
      | inl e ↦ rw (==→eq j i e) (now ∙ sym was)
      | inr e ↦ same' j (==_false→ne j i e) ∙ same j (==_false→ne j i e)
    ]

    freed :
        (ptr : Ptr) (h₁ : Heap)
        → Allocated h ptr h₁
        → Returns
            (λ _ h'. ((j : ℕ) → is_free h' j ≡ is_free h j) × (h'.desc ≡ h.desc))
            (ufree ptr h₁)
    freed ptr h₁ (i, below, at, was, before, now, same, e) =
        elim (ufree-free h₁ i (rw e is) (rw e below) now (rw (e, count) (λ z. omega (arith, z)))) [
          | returns u h₂ eq (free', same', e') ↦
              returns u h₂ (ap (λ p. ufree p h₁) (rw (at, e) refl) ∙ eq)
                (restored h₁ h₂ i was same free' same', rw (e', e, count, minus) refl)
        ]
