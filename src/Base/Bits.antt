-- ===== src/Base/Bits.antt =====
-- Facts about the bitwise operations on native numbers.
use Prim.Native.Nat.{
  ℕ, zero, suc, ◌+◌, ◌*◌, ◌/◌, ◌%◌, ◌^◌, ◌≤◌, ◌<◌, max, bit_or, bit_xor, digits, differ,
  bit_or-bitwise, bit_xor-bitwise,
}
use mathlib.Core.Path.{◌≡◌, refl, ap}
use mathlib.Core.Bool.{Bool, not, ◌&&◌, ◌||◌}
use native.Mathlib.Omega.{arith}
use operating_system_cortex.Base.Tests.{◌==◌}

abbrev or_digits : ℕ → ℕ → ℕ → ℕ
or_digits n a b = digits (λ b. b) max n a b

or_digits_fuel : (n m a b : ℕ) → a ≤ n → a ≤ m → or_digits n a b ≡ or_digits m a b
or_digits_fuel zero zero a b p q = refl
or_digits_fuel zero (suc m) zero b p q = refl
or_digits_fuel zero (suc m) (suc a) b p q = absurd (omega arith)
or_digits_fuel (suc n) zero zero b p q = refl
or_digits_fuel (suc n) zero (suc a) b p q = absurd (omega arith)
or_digits_fuel (suc n) (suc m) zero b p q = refl
or_digits_fuel (suc n) (suc m) (suc a) b p q =
    omega (arith, or_digits_fuel n m (suc a / 2) (b / 2) (omega arith) (omega arith))

pub zero-bit_or : (b : ℕ) → bit_or 0 b ≡ b
zero-bit_or b = bit_or-bitwise 0 b

bit_or_step : (a b : ℕ) → bit_or a b ≡ bit_or (a / 2) (b / 2) * 2 + max (a % 2) (b % 2)
bit_or_step zero b = omega (arith, zero-bit_or b, zero-bit_or (b / 2))
bit_or_step (suc a) b = omega (
  arith,
  bit_or-bitwise (suc a) b,
  bit_or-bitwise (suc a / 2) (b / 2),
  or_digits_fuel a (suc a / 2) (suc a / 2) (b / 2) (omega arith) (omega arith),
)

-- b shifted to the left by k digits
abbrev double : ℕ → ℕ → ℕ
double zero b = b
double (suc k) b = double k b * 2

half : (c : ℕ) → c * 2 / 2 ≡ c
half c = omega arith

bit_or-double : (k a b : ℕ) → a < double k 1 → bit_or a (double k b) ≡ a + double k b
bit_or-double zero zero b h = omega (arith, zero-bit_or b)
bit_or-double zero (suc a) b h = absurd (omega arith)
bit_or-double (suc k) a b h = omega (
  arith,
  bit_or_step a (double k b * 2),
  ap (bit_or (a / 2)) (half (double k b)),
  bit_or-double k (a / 2) b (omega arith),
)

double_eight : (b : ℕ) → b * 2 ^ 8 ≡ double 8 b
double_eight b = omega arith

-- A byte and a byte above it do not share a digit.
pub bit_or-byte : (a b : ℕ) → a < 256 → bit_or a (b * 2 ^ 8) ≡ a + b * 256
bit_or-byte a b h = rw (double_eight b, bit_or-double 8 a b h) (omega arith)

double_sixteen : (b : ℕ) → b * 2 ^ 16 ≡ double 16 b
double_sixteen b = omega arith

double_twentyfour : (b : ℕ) → b * 2 ^ 24 ≡ double 24 b
double_twentyfour b = omega arith

pub bit_or-word : (a b : ℕ) → a < 2 ^ 16 → bit_or a (b * 2 ^ 16) ≡ a + b * 2 ^ 16
bit_or-word a b h =
    rw (double_sixteen b, bit_or-double 16 a b (omega arith)) (omega (arith, double_sixteen b))

pub bit_or-three_bytes : (a b : ℕ) → a < 2 ^ 24 → bit_or a (b * 2 ^ 24) ≡ a + b * 2 ^ 24
bit_or-three_bytes a b h =
    rw (double_twentyfour b, bit_or-double 24 a b (omega arith))
      (omega (arith, double_twentyfour b))

abbrev xor_digits : ℕ → ℕ → ℕ → ℕ
xor_digits n a b = digits (λ b. b) differ n a b

differ-lt : (x y : ℕ) → x < 2 → y < 2 → differ x y < 2
differ-lt zero y p q = q
differ-lt (suc x) zero p q = p
differ-lt (suc zero) (suc y) p q = omega arith
differ-lt (suc (suc x)) (suc y) p q = absurd (omega arith)

xor_digits-lt : (k n a b : ℕ) → a < double k 1 → b < double k 1 → xor_digits n a b < double k 1
xor_digits-lt k zero a b p q = q
xor_digits-lt k (suc n) zero b p q = q
xor_digits-lt zero (suc n) (suc a) b p q = absurd (omega arith)
xor_digits-lt (suc k) (suc n) (suc a) b p q = omega (
  arith,
  xor_digits-lt k n (suc a / 2) (b / 2) (omega arith) (omega arith),
  differ-lt (suc a % 2) (b % 2) (omega arith) (omega arith),
)

pub bit_xor-lt : (a b : ℕ) → a < 256 → b < 256 → bit_xor a b < 256
bit_xor-lt a b p q = omega (arith, bit_xor-bitwise a b, xor_digits-lt 8 a a b p q)

-- `m & (1 << i)`, `m | (1 << i)` and `m & ~(1 << i)`, digit by digit.
abbrev pub test_bit : ℕ → ℕ → Bool
test_bit m zero = m % 2 == 1
test_bit m (suc i) = test_bit (m / 2) i

abbrev pub set_bit : ℕ → ℕ → ℕ
set_bit m zero = m / 2 * 2 + 1
set_bit m (suc i) = m % 2 + set_bit (m / 2) i * 2

abbrev pub clear_bit : ℕ → ℕ → ℕ
clear_bit m zero = m / 2 * 2
clear_bit m (suc i) = m % 2 + clear_bit (m / 2) i * 2

digit_below : (d b : ℕ) → d < 2 → (d + b * 2) / 2 ≡ b
digit_below d b h = omega arith

digit_of : (d b : ℕ) → d < 2 → (d + b * 2) % 2 ≡ d
digit_of d b h = omega arith

above_digit : (b : ℕ) → (b * 2 + 1) / 2 ≡ b
above_digit b = omega arith

pub test_bit-set_bit : (m i j : ℕ) → test_bit (set_bit m i) j ≡ ((i == j) || test_bit m j)
test_bit-set_bit m zero zero = ground arith
test_bit-set_bit m zero (suc j) = rw (above_digit (m / 2)) (ground arith)
test_bit-set_bit m (suc i) zero =
    rw (digit_of (m % 2) (set_bit (m / 2) i) (omega arith)) (ground arith)
test_bit-set_bit m (suc i) (suc j) =
    rw (digit_below (m % 2) (set_bit (m / 2) i) (omega arith), test_bit-set_bit (m / 2) i j)
      (ground arith)

pub test_bit-clear_bit : (m i j : ℕ) → test_bit (clear_bit m i) j ≡ (not (i == j) && test_bit m j)
test_bit-clear_bit m zero zero = ground arith
test_bit-clear_bit m zero (suc j) = rw (half (m / 2)) (ground arith)
test_bit-clear_bit m (suc i) zero =
    rw (digit_of (m % 2) (clear_bit (m / 2) i) (omega arith)) (ground arith)
test_bit-clear_bit m (suc i) (suc j) =
    rw (digit_below (m % 2) (clear_bit (m / 2) i) (omega arith), test_bit-clear_bit (m / 2) i j)
      (ground arith)
