-- ===== src/Umalloc/Bitmap.antt =====
-- The bitmap of an allocator of kernel/src/mm/umalloc.c, as the set of its free blocks.
use operating_system_cortex.Base.{
  ℕ, zero, suc, ◌+◌, ◌-◌, ◌*◌, ◌/◌, ◌%◌, ◌<◌, ◌≤◌, ◌≡◌, ◌⊎◌, inl, inr, refl, sym, ap, ◌∙◌, Bool,
  true, false, ◌==◌, Bool-cases, ltb, ltb→lt, ==→eq, Option, none, some, arith, test_bit, clear_bit,
}
use operating_system_cortex.Umalloc.{Heap, word_of, get_bitmap_value, set_word, first_set, scan}

pub test_bit-zero : (j : ℕ) → test_bit 0 j ≡ false
test_bit-zero zero = refl
test_bit-zero (suc j) = test_bit-zero j

-- A search from `j` for `count` places: there is no such bit, or the first one is found.
abbrev pub First : (test : ℕ → Bool) → (j count : ℕ) → Option ℕ → Type 0
First test j count r =
    ((r ≡ none) × ((k : ℕ) → j ≤ k → k < j + count → test k ≡ false))
    ⊎ ((k : ℕ) × (r ≡ some k)
        × (j ≤ k)
        × (k < j + count)
        × (test k ≡ true)
        × ((i : ℕ) → j ≤ i → i < k → test i ≡ false))

first_set-First :
    (count j bitmask : ℕ) → First (test_bit bitmask) j count (first_set count j bitmask)
unfolding first_set
first_set-First zero j bitmask = inl (refl, λ k low high. absurd (omega (arith, low, high)))
first_set-First (suc count) j bitmask = elim (Bool-cases (test_bit bitmask j)) [
  | inl e ↦
      rw e (
        inr (j, refl, omega arith, omega arith, e, λ i low high. absurd (omega (arith, low, high))))
  | inr e ↦
      rw e (longer (first_set count (j + 1) bitmask) e (first_set-First count (j + 1) bitmask))
]
  where
    here_or :
        test_bit bitmask j ≡ false
        → (i : ℕ) → j ≤ i
        → (j + 1 ≤ i → test_bit bitmask i ≡ false)
        → test_bit bitmask i ≡ false
    here_or e i low later = elim (Bool-cases (j == i)) [
      | inl same ↦ ap (test_bit bitmask) (sym (==→eq j i same)) ∙ e
      | inr other ↦ later (ground (arith, other, low))
    ]

    longer :
        (r : Option ℕ)
        → test_bit bitmask j ≡ false
        → First (test_bit bitmask) (j + 1) count r
        → First (test_bit bitmask) j (suc count) r
    longer r e (inl (eq, all)) =
        inl (eq, λ k low high. here_or e k low (λ h. all k h (omega (arith, high))))
    longer r e (inr (k, eq, low, high, set, before)) = inr (
      k,
      eq,
      omega (arith, low),
      omega (arith, high),
      set,
      λ i l h. here_or e i l (λ h'. before i h' h),
    )

-- The block is free.
abbrev pub is_free : Heap → (index : ℕ) → Bool
is_free h k = get_bitmap_value h k

pub get_bitmap_value-word :
    (h : Heap) (i j : ℕ)
    → j < 32
    → get_bitmap_value h (32 * i + j) ≡ test_bit (h.words (h.desc.bitmap + 4 * i)) j
unfolding get_bitmap_value
get_bitmap_value-word h i j small = rw (quotient, remainder) refl
  where
    quotient : (32 * i + j) / 32 ≡ i
    quotient = omega (arith, small)

    remainder : (32 * i + j) % 32 ≡ j
    remainder = omega (arith, small)

-- The heap without the free block that was found.
abbrev pub taken : Option ℕ → Heap → Heap
taken none h = h
taken (some k) h = set_word (word_of h.desc k) (clear_bit (h.words (word_of h.desc k)) (k % 32)) h

abbrev pub Scanned : (count i : ℕ) → Heap → Option ℕ × Heap → Type 0
Scanned count i h s =
    (r : Option ℕ) × (s ≡ (r, taken r h)) × First (is_free h) (32 * i) (32 * count) r

in_word :
    (h : Heap) (i k : ℕ)
    → 32 * i ≤ k
    → k < 32 * i + 32
    → is_free h k ≡ test_bit (h.words (h.desc.bitmap + 4 * i)) (k - 32 * i)
in_word h i k low high =
    ap (is_free h) whole ∙ get_bitmap_value-word h i (k - 32 * i) (omega (arith, low, high))
  where
    whole : k ≡ 32 * i + (k - 32 * i)
    whole = omega (arith, low)

next_word :
    (count i : ℕ) (h : Heap) (s : Option ℕ × Heap)
    → ((j : ℕ) → j < 32 → test_bit (h.words (h.desc.bitmap + 4 * i)) j ≡ false)
    → Scanned count (i + 1) h s
    → Scanned (suc count) i h s
next_word count i h s empty (r, e, first) = (r, e, longer r first)
  where
    before : (k : ℕ) → 32 * i ≤ k → (32 * (i + 1) ≤ k → is_free h k ≡ false) → is_free h k ≡ false
    before k low later = elim (Bool-cases (ltb k (32 * i + 32))) [
      | inl in_it ↦
          in_word h i k low (ltb→lt k (32 * i + 32) in_it)
          ∙ empty (k - 32 * i) (ground (arith, in_it, low))
      | inr behind ↦ later (ground (arith, behind))
    ]

    longer :
        (r : Option ℕ)
        → First (is_free h) (32 * (i + 1)) (32 * count) r
        → First (is_free h) (32 * i) (32 * suc count) r
    longer r (inl (eq, all)) =
        inl (eq, λ k low high. before k low (λ l. all k l (omega (arith, high))))
    longer r (inr (k, eq, low, high, set, earlier)) = inr (
      k,
      eq,
      omega (arith, low),
      omega (arith, high),
      set,
      λ j l h. before j l (λ l'. earlier j l' h),
    )

found_in_word :
    (count i j : ℕ) (h : Heap)
    → j < 32
    → test_bit (h.words (h.desc.bitmap + 4 * i)) j ≡ true
    → ((k : ℕ) → 0 ≤ k → k < j → test_bit (h.words (h.desc.bitmap + 4 * i)) k ≡ false)
    → Scanned (suc count) i h (
      some (32 * i + j),
      set_word (h.desc.bitmap + 4 * i) (clear_bit (h.words (h.desc.bitmap + 4 * i)) j) h,
    )
found_in_word count i j h small set before = (
  some (32 * i + j),
  rw (quotient, remainder) refl,
  inr (
    32 * i + j,
    refl,
    omega arith,
    omega (arith, small),
    get_bitmap_value-word h i j small ∙ set,
    λ k low high.
        in_word h i k low (omega (arith, high, small))
        ∙ before (k - 32 * i) (omega arith) (omega (arith, high, low)),
  ),
)
  where
    quotient : (32 * i + j) / 32 ≡ i
    quotient = omega (arith, small)

    remainder : (32 * i + j) % 32 ≡ j
    remainder = omega (arith, small)

pub scan-Scanned : (count i : ℕ) (h : Heap) → Scanned count i h (scan count i h)
unfolding scan
scan-Scanned zero i h = (none, refl, inl (refl, λ k low high. absurd (omega (arith, low, high))))
scan-Scanned (suc count) i h = elim (Bool-cases (h.words (h.desc.bitmap + 4 * i) == 0)) [
  | inl e ↦ rw e (
      next_word count i h (scan count (i + 1) h)
        (λ j small. ap (λ w. test_bit w j) (==→eq _ 0 e) ∙ test_bit-zero j)
        (scan-Scanned count (i + 1) h))
  | inr e ↦ rw e (
      searched (first_set 32 0 (h.words (h.desc.bitmap + 4 * i)))
        (first_set-First 32 0 (h.words (h.desc.bitmap + 4 * i))) (scan-Scanned count (i + 1) h))
]
  where
    searched :
        (r : Option ℕ)
        → First (test_bit (h.words (h.desc.bitmap + 4 * i))) 0 32 r
        → Scanned count (i + 1) h (scan count (i + 1) h)
        → Scanned (suc count) i h (elim r [
          | none ↦ scan count (i + 1) h
          | some j ↦ (
            some (32 * i + j),
            set_word (h.desc.bitmap + 4 * i) (clear_bit (h.words (h.desc.bitmap + 4 * i)) j) h,
          )
        ])
    searched r (inl (eq, all)) rest =
        rw eq
          (next_word count i h (scan count (i + 1) h) (λ j small. all j (omega arith) small) rest)
    searched r (inr (j, eq, low, high, set, before)) rest =
        rw eq (found_in_word count i j h high set before)
