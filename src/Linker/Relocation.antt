-- ===== src/Linker/Relocation.antt =====
-- What the relocation of kernel/src/kernel/dynamic_linker.c does to the tables of an application.
use operating_system_cortex.Base.{
  ℕ, zero, suc, ◌+◌, ◌*◌, ◌^◌, ◌<◌, ◌≤◌, ◌≡◌, ◌≢◌, ◌⊎◌, inl, inr, refl, sym, ap, ◌∙◌, true, false,
  ◌==◌, ==_self, ne→==_false, if◌then◌else◌, arith, u32, ok, bind,
}
use operating_system_cortex.Dlist.{Ptr}
use operating_system_cortex.Linker.{
  Words, got_start, got_end, plt_start, plt_end, write_word, relocate, dynamic_linker,
}

-- From `p` on, `n` words have the base added; all others are as before.
abbrev pub Relocated : (binary p n : ℕ) → Words → Words → Type 0
Relocated binary p n m m' =
    ((i : ℕ) → i < n → m' (p + 4 * i) ≡ u32 (m (p + 4 * i) + binary))
    × ((a : Ptr) → ((i : ℕ) → i < n → a ≢ p + 4 * i) → m' a ≡ m a)

write_word_other : (p a value : ℕ) (m : Words) → a ≢ p → write_word p value m a ≡ m a
unfolding write_word
write_word_other p a value m ne = rw (ne→==_false a p ne) refl

write_word_same : (p value : ℕ) (m : Words) → write_word p value m p ≡ value
unfolding write_word
write_word_same p value m = rw (==_self p) refl

-- A round in front of the others.
Relocated-first :
    (binary p n : ℕ) (m m' : Words)
    → Relocated binary (p + 4) n (write_word p (u32 (m p + binary)) m) m'
    → Relocated binary p (suc n) m m'
Relocated-first binary p n m m' (inside, outside) = (each, others)
  where
    plus_zero : p + 4 * 0 ≡ p
    plus_zero = omega arith

    next : (i : ℕ) → p + 4 * suc i ≡ p + 4 + 4 * i
    next i = omega arith

    each : (i : ℕ) → i < suc n → m' (p + 4 * i) ≡ u32 (m (p + 4 * i) + binary)
    each zero l =
        rw plus_zero
          (outside p (λ i l e. omega (arith, e)) ∙ write_word_same p (u32 (m p + binary)) m)
    each (suc i) l = rw (next i) (
        inside i (omega (arith, l))
        ∙ ap (λ x. u32 (x + binary))
            (write_word_other p (p + 4 + 4 * i) (u32 (m p + binary)) m (λ e. omega (arith, e))))

    others : (a : Ptr) → ((i : ℕ) → i < suc n → a ≢ p + 4 * i) → m' a ≡ m a
    others a out =
        outside a (λ i l e. out (suc i) (omega (arith, l)) (e ∙ sym (next i)))
        ∙ write_word_other p a (u32 (m p + binary)) m (λ e. out 0 (omega arith) (e ∙ sym plus_zero))

relocate-Relocated :
    (fuel binary p n : ℕ) (m : Words)
    → n < fuel
    → p + 4 * n < 2 ^ 32
    → (m' : Words) × (relocate fuel binary p (p + 4 * n) m ≡ ok m') × Relocated binary p n m m'
unfolding relocate
relocate-Relocated zero binary p n m h small = absurd (omega arith)
relocate-Relocated (suc fuel) binary p zero m h small =
    (m, rw at_end refl, ((λ i l. absurd (omega arith)), λ a out. refl))
  where
    at_end : (p == p + 4 * 0) ≡ true
    at_end = ground arith
relocate-Relocated (suc fuel) binary p (suc n) m h small = first (
    relocate-Relocated fuel binary (p + 4) n (write_word p (u32 (m p + binary)) m) (omega arith)
      (omega (arith, small)))
  where
    m₁ : Words
    m₁ = write_word p (u32 (m p + binary)) m

    more : (p == p + 4 * suc n) ≡ false
    more = ground arith

    plain : u32 (p + 4) ≡ p + 4
    plain = omega (arith, small)

    end_of : p + 4 + 4 * n ≡ p + 4 * suc n
    end_of = omega arith

    first :
        ((m' : Words) × (relocate fuel binary (p + 4) (p + 4 + 4 * n) m₁ ≡ ok m')
          × Relocated binary (p + 4) n m₁ m')
        → (m' : Words) × ((if p == p + 4 * suc n
              then ok m
              else relocate fuel binary (u32 (p + 4)) (p + 4 * suc n) m₁)
            ≡ ok m')
          × Relocated binary p (suc n) m m'
    first (m', e, done) =
        (m', rw (more, plain) (rw end_of at e), Relocated-first binary p n m m' done)

-- The tables of an application: `n` words at `got` and `k` words at `plt`, apart, behind the info.
abbrev pub HasTables : (binary got n plt k : ℕ) → Words → Type 0
HasTables binary got n plt k m =
    (u32 (binary + got_start binary m) ≡ got)
    × (u32 (binary + got_end binary m) ≡ got + 4 * n)
    × (u32 (binary + plt_start binary m) ≡ plt)
    × (u32 (binary + plt_end binary m) ≡ plt + 4 * k)
    × (binary + 28 ≤ got)
    × ((plt + 4 * k ≤ got) ⊎ (got + 4 * n ≤ plt))

-- Every word of both tables has the base added, once, and no other word changes.
abbrev pub Linked : (binary got n plt k : ℕ) → Words → Words → Type 0
Linked binary got n plt k m m' =
    ((i : ℕ) → i < n → m' (got + 4 * i) ≡ u32 (m (got + 4 * i) + binary))
    × ((i : ℕ) → i < k → m' (plt + 4 * i) ≡ u32 (m (plt + 4 * i) + binary))
    × ((a : Ptr)
        → ((i : ℕ) → i < n → a ≢ got + 4 * i)
        → ((i : ℕ) → i < k → a ≢ plt + 4 * i)
        → m' a ≡ m a)

apart_words :
    (got n plt k i j : ℕ)
    → (plt + 4 * k ≤ got) ⊎ (got + 4 * n ≤ plt)
    → i < n
    → j < k
    → got + 4 * i ≢ plt + 4 * j
apart_words got n plt k i j (inl below) h l e = omega (arith, below, h, l, e)
apart_words got n plt k i j (inr above) h l e = omega (arith, above, h, l, e)

both-Linked :
    (binary got n plt k : ℕ) (m m₁ m₂ : Words)
    → (plt + 4 * k ≤ got) ⊎ (got + 4 * n ≤ plt)
    → Relocated binary got n m m₁
    → Relocated binary plt k m₁ m₂
    → Linked binary got n plt k m m₂
both-Linked binary got n plt k m m₁ m₂ apart (inside, outside) (inside', outside') = (
  (λ i h. outside' (got + 4 * i) (λ j l. apart_words got n plt k i j apart h l) ∙ inside i h),
  (λ i h.
      inside' i h
      ∙ ap (λ x. u32 (x + binary))
          (outside (plt + 4 * i) (λ j l e. apart_words got n plt k j i apart l h (sym e)))),
  (λ a not_got not_plt. outside' a not_plt ∙ outside a not_got),
)

-- The linker adds the address of the binary to every word of the global offset table and of the
-- procedure table, once, and changes nothing else; the tables lie behind the info, apart and below
-- 2 ^ 32, and fuel above the number of words in each is enough.
pub dynamic_linker-Linked :
    (fuel binary got n plt k : ℕ) (m : Words)
    → HasTables binary got n plt k m
    → n < fuel
    → k < fuel
    → got + 4 * n < 2 ^ 32
    → plt + 4 * k < 2 ^ 32
    → (m' : Words) × (dynamic_linker fuel binary m ≡ ok m') × Linked binary got n plt k m m'
unfolding dynamic_linker
dynamic_linker-Linked fuel binary got n plt k m (gs, ge, ps, pe, behind, apart) hn hk small small' =
    rw (gs, ge) (second (relocate-Relocated fuel binary got n m hn small))
  where
    third :
        (m₁ : Words)
        → Relocated binary got n m m₁
        → ((m₂ : Words) × (relocate fuel binary plt (plt + 4 * k) m₁ ≡ ok m₂)
            × Relocated binary plt k m₁ m₂)
        → (m₂ : Words) × (relocate fuel binary plt (plt + 4 * k) m₁ ≡ ok m₂)
          × Linked binary got n plt k m m₂
    third m₁ done (m₂, e, done') = (m₂, e, both-Linked binary got n plt k m m₁ m₂ apart done done')

    info : (m₁ : Words) (a : Ptr) → Relocated binary got n m m₁ → a < got → m₁ a ≡ m a
    info m₁ a done below = done.1 a (λ i l e. omega (arith, below, e))

    second :
        ((m₁ : Words) × (relocate fuel binary got (got + 4 * n) m ≡ ok m₁)
          × Relocated binary got n m m₁)
        → (m' : Words) × (bind (relocate fuel binary got (got + 4 * n) m) (λ m.
              relocate fuel binary
                (u32 (binary + plt_start binary m))
                (u32 (binary + plt_end binary m))
                m)
            ≡ ok m')
          × Linked binary got n plt k m m'
    second (m₁, e, done) =
        rw
          (
            e,
            info m₁ (binary + 20) done (omega (arith, behind)),
            info m₁ (binary + 24) done (omega (arith, behind)),
            ps,
            pe,
          )
          (third m₁ done (relocate-Relocated fuel binary plt k m₁ hk small'))
