-- ===== src/Fat/Grow.antt =====
-- A volume that kernel/src/disk/fat32.c adds to its list, and the letter that it gets.
use operating_system_cortex.Base.{
  ℕ, zero, suc, ◌+◌, ◌<◌, ◌≤◌, ◌≡◌, ◌≢◌, refl, sym, ap, ◌∙◌, false≢true, true, false, ◌==◌, ==_self,
  ne→==_false, ==_false→ne, Bool-cases, inl, inr, List, [], ◌∷◌, ◌++◌, last_or, mem, Distinct, some,
  arith, test_bit, set_bit, test_bit-set_bit,
}
use operating_system_cortex.Dlist.{Ptr, null}
use operating_system_cortex.Fat.{Volume}
use operating_system_cortex.Fat.Volumes.{free_bit}
use operating_system_cortex.Fat.Letters.{Linked, with_letter}

-- Every volume has a letter of its own, whose bit is set.
abbrev pub Lettered : (Ptr → Volume) → (bitmask : ℕ) → List Ptr → Type 0
Lettered t bitmask [] = Unit {0}
Lettered t bitmask (a ∷ us) =
    ((i : ℕ) × (i < 32) × ((t a).letter ≡ 0x43 + i) × (test_bit bitmask i ≡ true))
    × (with_letter t (t a).letter us ≡ null)
    × Lettered t bitmask us

-- The search for a clear bit finds the first one.
pub free_bit-clear :
    (count i bitmask k : ℕ)
    → i ≤ k
    → k < i + count
    → test_bit bitmask k ≡ false
    → (j : ℕ) × (free_bit count i bitmask ≡ some j) × (test_bit bitmask j ≡ false) × (j < i + count)
unfolding free_bit
free_bit-clear zero i bitmask k low high clear = absurd (omega arith)
free_bit-clear (suc count) i bitmask k low high clear = elim (Bool-cases (test_bit bitmask i)) [
  | inl e ↦ rw e (later (free_bit-clear count (i + 1) bitmask k (above e) (omega arith) clear))
  | inr e ↦ (i, rw e refl, e, omega arith)
]
  where
    above : test_bit bitmask i ≡ true → i + 1 ≤ k
    above e = omega (arith, λ (q : i ≡ k). false≢true (sym clear ∙ (rw q at e)))

    later :
        ((j : ℕ) × (free_bit count (i + 1) bitmask ≡ some j)
          × (test_bit bitmask j ≡ false)
          × (j < i + 1 + count))
        → (j : ℕ) × (free_bit count (i + 1) bitmask ≡ some j)
          × (test_bit bitmask j ≡ false)
          × (j < i + suc count)
    later (j, e, c, h) = (j, e, c, omega arith)

pub mem-last_or : (a : Ptr) (us : List Ptr) → mem (last_or a us) (a ∷ us) ≡ true
mem-last_or a [] = ground arith
mem-last_or a (b ∷ us) = rw (mem-last_or b us) (ground arith)

module _ (t t' : Ptr → Volume) (vol : Ptr) (bitmask j : ℕ)
    (letters : (x : Ptr) → x ≢ vol → (t' x).letter ≡ (t x).letter)
    (letter : (t' vol).letter ≡ 0x43 + j) (clear : test_bit bitmask j ≡ false)
    (small : j < 32) where
  apart : (a : Ptr) (us : List Ptr) → mem vol (a ∷ us) ≡ false → (a ≢ vol) × (mem vol us ≡ false)
  apart a us out = elim (Bool-cases (vol == a)) [
    | inl e ↦ absurd (false≢true (sym (rw e at out)))
    | inr e ↦ ((λ q. ==_false→ne vol a e (sym q)), rw e at out)
  ]

  with_letter-grown :
      (l : ℕ) (us : List Ptr)
      → l ≢ 0x43 + j
      → mem vol us ≡ false
      → with_letter t l us ≡ null
      → with_letter t' l (us ++ vol ∷ []) ≡ null
  with_letter-grown l [] ne out none_has =
      rw (letter, ne→==_false (0x43 + j) l (λ q. ne (sym q))) refl
  with_letter-grown l (a ∷ us) ne out none_has = elim (Bool-cases ((t a).letter == l)) [
    | inl e ↦ rw (letters a (apart a us out).0, e) (rw e at none_has)
    | inr e ↦
        rw (letters a (apart a us out).0, e)
          (with_letter-grown l us ne (apart a us out).1 (rw e at none_has))
  ]

  pub Lettered-grown :
      (us : List Ptr)
      → mem vol us ≡ false
      → Lettered t bitmask us
      → Lettered t' (set_bit bitmask j) (us ++ vol ∷ [])
  Lettered-grown [] out lettered =
      ((j, small, letter, rw (test_bit-set_bit bitmask j j, ==_self j) refl), refl, tt)
  Lettered-grown (a ∷ us) out ((i, h, e, bit), alone, lettered) = (
    (i, h, letters a (apart a us out).0 ∙ e, rw (test_bit-set_bit bitmask j i, bit) (ground arith)),
    rw (letters a (apart a us out).0)
        (with_letter-grown (t a).letter us other (apart a us out).1 alone),
    Lettered-grown us (apart a us out).1 lettered,
  )
    where
      other : (t a).letter ≢ 0x43 + j
      other q =
          let p : j ≡ i = omega (arith, e, q) in
          false≢true (sym clear ∙ ap (test_bit bitmask) p ∙ bit)

module _ (t t' : Ptr → Volume) (vol : Ptr) (some_vol : vol ≢ null)
    (new : (t' vol).next ≡ null) where
  -- The list grows where only the last node's pointer is written.
  pub Linked-grown :
      (p a : Ptr) (us : List Ptr)
      → Linked t p (a ∷ us)
      → Distinct (a ∷ us)
      → ((x : Ptr) → mem x (a ∷ us) ≡ true → x ≢ last_or a us → (t' x).next ≡ (t x).next)
      → (t' (last_or a us)).next ≡ vol
      → Linked t' p (a ∷ us ++ vol ∷ [])
  Linked-grown p a [] (at, ne, end) once same last = (at, ne, (last, some_vol, new))
  Linked-grown p a (b ∷ us) (at, ne, linked) (once, distinct) same last = (
    at,
    ne,
    rw (same a (rw (==_self a) refl) (not_last once))
        (Linked-grown (t a).next b us linked distinct (λ x h. same x (in_tail x h)) last),
  )
    where
      in_tail : (x : Ptr) → mem x (b ∷ us) ≡ true → mem x (a ∷ b ∷ us) ≡ true
      in_tail x h = rw h (ground arith)

      not_last : mem a (b ∷ us) ≡ false → a ≢ last_or b us
      not_last out q = false≢true (sym out ∙ ap (λ x. mem x (b ∷ us)) q ∙ mem-last_or b us)
