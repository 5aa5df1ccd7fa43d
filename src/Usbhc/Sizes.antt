-- ===== src/Usbhc/Sizes.antt =====
-- The size of the pipe that is allocated for an endpoint.
use native.Mathlib.Numerals.{unary_clauses}
use operating_system_cortex.Base.{
  ℕ, zero, suc, ◌+◌, ◌-◌, ◌*◌, ◌/◌, ◌^◌, ◌<◌, ◌≤◌, ◌≡◌, ◌≢◌, inl, inr, refl, ap, true, false, ◌==◌,
  leb, ◌&&◌, Bool-cases, ==→eq, ne→==_false, ==_false→ne, if◌then◌else◌, some, none, test_bit,
  arith,
}
use operating_system_cortex.Usbhc.Pipes.{highest_bit, usbhc_size_to_pipe_size}

-- Without the bit i a number below 2 ^ (i + 1) is below 2 ^ i, and with it, it is not.
bit_unset : (i m : ℕ) → m < 2 ^ suc i → test_bit m i ≡ false → m < 2 ^ i
bit_unset zero m l h = ground arith
bit_unset (suc i) m l h =
    let half = bit_unset i (m / 2) (omega (arith, simp unary_clauses at l)) h in
    simp unary_clauses (omega (arith, half))

bit_set : (i m : ℕ) → test_bit m i ≡ true → 2 ^ i ≤ m
bit_set zero m h = ground arith
bit_set (suc i) m h = let half = bit_set i (m / 2) h in simp unary_clauses (omega (arith, half))

highest_bit-between :
    (i size : ℕ)
    → 0 < size
    → size < 2 ^ i
    → (2 ^ highest_bit i size ≤ size) × (size < 2 ^ suc (highest_bit i size))
unfolding highest_bit
highest_bit-between zero size h l = absurd (omega (arith, l))
highest_bit-between (suc i) size h l = elim (Bool-cases (test_bit size i)) [
  | inl e ↦ rw e (bit_set i size e, l)
  | inr e ↦ rw e (highest_bit-between i size h (bit_unset i size l e))
]

pow_positive : (k : ℕ) → 1 ≤ 2 ^ k
pow_positive zero = omega arith
pow_positive (suc k) = simp unary_clauses (omega (arith, pow_positive k))

-- A power below 2 ^ (b + 1) has an exponent of at most b.
exponent_le : (i b : ℕ) → 2 ^ i < 2 ^ suc b → i ≤ b
exponent_le zero b h = omega arith
exponent_le (suc i) zero h = absurd (omega (arith, pow_positive i, simp unary_clauses at h))
exponent_le (suc i) (suc b) h =
    omega (arith, exponent_le i b (omega (arith, simp unary_clauses at h)))

at_least : (i : ℕ) → 4 < 2 ^ i → 3 ≤ i
at_least zero h = absurd (omega arith)
at_least (suc zero) h = absurd (omega arith)
at_least (suc (suc zero)) h = absurd (omega arith)
at_least (suc (suc (suc i))) h = omega arith

sized :
    (j : ℕ) → 3 ≤ j → j ≤ 10 → (if leb 3 j && leb j 10 then some (j - 3) else none) ≡ some (j - 3)
sized j h k = ground arith

-- A pipe of 2 ^ (pipe_size + 3) bytes is the smallest one for `size` bytes.
pub record Smallest (size pipe_size : ℕ) : Type 0 where
  pub is_size : pipe_size < 8
  pub holds : size ≤ 2 ^ (pipe_size + 3)
  pub smallest : pipe_size ≢ 0 → 2 ^ (pipe_size + 2) < size

half_pow : (i : ℕ) → 0 < i → 2 ^ (i - 1) * 2 ≡ 2 ^ i
half_pow zero h = absurd (omega arith)
half_pow (suc i) h = simp unary_clauses refl

pow_path : {i j : ℕ} → i ≡ j → 2 ^ i ≡ 2 ^ j
pow_path e = ap (λ k. 2 ^ k) e

exact : (i size : ℕ) → 3 ≤ i → i ≤ 10 → size ≡ 2 ^ i → Smallest size (i - 3)
exact i size l u e = record {
  is_size = omega arith;
  holds = omega (arith, e, pow_path {i = i - 3 + 3} {j = i} (omega arith));
  smallest = λ n. omega (
    arith,
    e,
    half_pow i (omega arith),
    pow_positive i,
    pow_path {i = i - 3 + 2} {j = i - 1} (omega (arith, n)),
  );
}

rounded : (i size : ℕ) → 2 ≤ i → i ≤ 9 → 2 ^ i < size → size < 2 ^ suc i → Smallest size (suc i - 3)
rounded i size l u b c = record {
  is_size = omega arith;
  holds = omega (arith, c, pow_path {i = suc i - 3 + 3} {j = suc i} (omega arith));
  smallest = λ n. omega (arith, b, pow_path {i = suc i - 3 + 2} {j = i} (omega (arith, n)));
}

-- The result for the highest bit i of a size.
Smallest-highest_bit :
    (i size : ℕ)
    → 4 < size
    → size ≤ 1024
    → 2 ^ i ≤ size
    → size < 2 ^ suc i
    → let j = if size == 2 ^ i then i else suc i in
      (pipe_size : ℕ) × ((if leb 3 j && leb j 10 then some (j - 3) else none) ≡ some pipe_size)
      × Smallest size pipe_size
Smallest-highest_bit i size h l a b = elim (Bool-cases (size == 2 ^ i)) [
  | inl e ↦
      let three = at_least i (omega (arith, ==→eq size (2 ^ i) e)) in
      let ten = exponent_le i 10 (omega arith) in
      (i - 3, rw e (sized i three ten), exact i size three ten (==→eq size (2 ^ i) e))
  | inr e ↦
      let three = at_least (suc i) (omega arith) in
      let below : 2 ^ i < size = omega (arith, ==_false→ne size (2 ^ i) e) in
      let nine = exponent_le i 9 (omega arith) in
      (
        suc i - 3,
        rw e (sized (suc i) three (omega (arith, nine))),
        rounded i size (omega (arith, three)) nine below b,
      )
]

-- For 5 to 1024 bytes the size of the pipe is found, and it is the smallest power of two of at
-- least 8 bytes that holds them.
pub usbhc_size_to_pipe_size-Smallest :
    (size : ℕ)
    → 4 < size
    → size ≤ 1024
    → (pipe_size : ℕ) × (usbhc_size_to_pipe_size size ≡ some pipe_size) × Smallest size pipe_size
unfolding usbhc_size_to_pipe_size
usbhc_size_to_pipe_size-Smallest size h l =
    let b = highest_bit-between 32 size (omega arith) (omega arith) in
    rw (ne→==_false size 0 (omega arith))
      (Smallest-highest_bit (highest_bit 32 size) size h l b.0 b.1)
