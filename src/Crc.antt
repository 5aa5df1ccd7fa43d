-- ===== src/Crc.antt =====
-- kernel/src/generic/crc.c, which bootloader/src/generic/crc.c repeats.
pub mod Tests
use operating_system_cortex.Base.{
  ℕ, zero, suc, ◌+◌, ◌*◌, ◌/◌, ◌%◌, ◌<◌, ◌≤◌, ◌≡◌, refl, ◌==◌, if◌then◌else◌, List, [], ◌∷◌, ◌++◌,
  arith, bit_xor, bit_xor-lt,
}

-- One turn of the inner loop.
unfoldable pub crc_bit : (polynomial crc : ℕ) → ℕ
crc_bit polynomial crc = (if crc % 2 == 1 then bit_xor crc polynomial else crc) / 2

unfoldable pub crc_bits : ℕ → (polynomial crc : ℕ) → ℕ
crc_bits zero polynomial crc = crc
crc_bits (suc n) polynomial crc = crc_bits n polynomial (crc_bit polynomial crc)

-- The outer loop, from the value `crc`, over the bytes of the region.
unfoldable pub crc_from : (polynomial crc : ℕ) → List ℕ → ℕ
crc_from polynomial crc [] = crc
crc_from polynomial crc (x ∷ xs) = crc_from polynomial (crc_bits 8 polynomial (bit_xor crc x)) xs

unfoldable pub crc_calculate : List ℕ → (polynomial : ℕ) → ℕ
crc_calculate src polynomial = crc_from polynomial 0 src

abbrev pub AreBytes : List ℕ → Type 0
AreBytes [] = Unit {0}
AreBytes (x ∷ xs) = (x < 256) × AreBytes xs

crc_bit-lt : (p c : ℕ) → p < 256 → c < 256 → crc_bit p c < 128
unfolding crc_bit
crc_bit-lt p c hp hc = ground (arith, bit_xor-lt c p hc hp)

crc_bits-lt : (n p c : ℕ) → p < 256 → c < 128 → crc_bits n p c < 128
unfolding crc_bits
crc_bits-lt zero p c hp hc = hc
crc_bits-lt (suc n) p c hp hc = crc_bits-lt n p (crc_bit p c) hp (crc_bit-lt p c hp (omega arith))

crc_byte-lt : (p c x : ℕ) → p < 256 → c < 128 → x < 256 → crc_bits 8 p (bit_xor c x) < 128
unfolding crc_bits
crc_byte-lt p c x hp hc hx =
    crc_bits-lt 7 p _ hp (crc_bit-lt p _ hp (bit_xor-lt c x (omega arith) hx))

crc_from-lt : (p c : ℕ) (xs : List ℕ) → p < 256 → c < 128 → AreBytes xs → crc_from p c xs < 128
unfolding crc_from
crc_from-lt p c [] hp hc h = hc
crc_from-lt p c (x ∷ xs) hp hc (hx, h) =
    crc_from-lt p (crc_bits 8 p (bit_xor c x)) xs hp (crc_byte-lt p c x hp hc hx) h

-- The CRC of bytes, for any polynomial of eight bits, is below 128: the polynomial is applied
-- before the shift, so the top bit of the result is never set.
pub crc_calculate-lt :
    (src : List ℕ) (polynomial : ℕ)
    → AreBytes src
    → polynomial < 256
    → crc_calculate src polynomial < 128
unfolding crc_calculate
crc_calculate-lt src polynomial bytes small = crc_from-lt polynomial 0 src small (omega arith) bytes
