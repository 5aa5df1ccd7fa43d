-- ===== src/Fat/Values.antt =====
-- The little endian values of kernel/src/disk/fat32.c.
use operating_system_cortex.Base.{
  ℕ, ◌+◌, ◌*◌, ◌/◌, ◌^◌, ◌<◌, ◌≤◌, ◌≡◌, ◌⊎◌, inl, inr, refl, ◌∙◌, arith, bit_or, bit_or-byte,
  bit_or-word, bit_or-three_bytes, zero-bit_or, u8,
}
use operating_system_cortex.Dlist.{Ptr}
use operating_system_cortex.Bytes.{Bytes, write_byte}
use operating_system_cortex.Fat.{fat_load32, fat_store32}

-- The four bytes at an address as one number.
abbrev pub word_at : Ptr → Bytes → ℕ
word_at p m = m p + m (p + 1) * 2 ^ 8 + m (p + 2) * 2 ^ 16 + m (p + 3) * 2 ^ 24

abbrev pub AreBytes : Bytes → Type 0
AreBytes m = (a : Ptr) → m a < 256

or_bytes :
    (a b c d : ℕ)
    → a < 256
    → b < 256
    → c < 256
    → bit_or (bit_or (bit_or (bit_or 0 a) (b * 2 ^ 8)) (c * 2 ^ 16)) (d * 2 ^ 24)
      ≡ a + b * 2 ^ 8 + c * 2 ^ 16 + d * 2 ^ 24
or_bytes a b c d p q r =
    rw
      (
        zero-bit_or a,
        bit_or-byte a b p,
        bit_or-word (a + b * 256) c (omega arith),
        bit_or-three_bytes (a + b * 256 + c * 2 ^ 16) d (omega arith),
      )
      (omega arith)

pub fat_load32-word_at :
    (p : Ptr) (m : Bytes)
    → m p < 256
    → m (p + 1) < 256
    → m (p + 2) < 256
    → fat_load32 p m ≡ word_at p m
unfolding fat_load32
fat_load32-word_at p m h₀ h₁ h₂ = or_bytes (m p) (m (p + 1)) (m (p + 2)) (m (p + 3)) h₀ h₁ h₂

-- The bytes that a store writes.
store_bytes :
    (p value : ℕ) (m : Bytes)
    → (fat_store32 p value m p ≡ u8 value)
      × (fat_store32 p value m (p + 1) ≡ u8 (value / 2 ^ 8))
      × (fat_store32 p value m (p + 2) ≡ u8 (value / 2 ^ 8 / 2 ^ 8))
      × (fat_store32 p value m (p + 3) ≡ u8 (value / 2 ^ 8 / 2 ^ 8 / 2 ^ 8))
unfolding fat_store32 write_byte
store_bytes p value m = (ground arith, ground arith, ground arith, ground arith)

u8-lt : {x : ℕ} (y : ℕ) → x ≡ u8 y → x < 256
u8-lt y e = omega (arith, e)

loaded :
    (p value : ℕ) (m : Bytes)
    → value < 2 ^ 32
    → m p ≡ u8 value
    → m (p + 1) ≡ u8 (value / 2 ^ 8)
    → m (p + 2) ≡ u8 (value / 2 ^ 8 / 2 ^ 8)
    → m (p + 3) ≡ u8 (value / 2 ^ 8 / 2 ^ 8 / 2 ^ 8)
    → fat_load32 p m ≡ value
loaded p value m h b₀ b₁ b₂ b₃ =
    fat_load32-word_at p m (u8-lt _ b₀) (u8-lt _ b₁) (u8-lt _ b₂) ∙ omega (arith, h, b₀, b₁, b₂, b₃)

-- A value of 32 bits that is stored is loaded again from there.
pub fat_load32-fat_store32 :
    (p value : ℕ) (m : Bytes) → value < 2 ^ 32 → fat_load32 p (fat_store32 p value m) ≡ value
fat_load32-fat_store32 p value m h =
    let b = store_bytes p value m in loaded p value (fat_store32 p value m) h b.0 b.1 b.2 b.3

-- Other bytes stay.
pub fat_store32_outside :
    (p value : ℕ) (m : Bytes) (a : Ptr) → (a < p) ⊎ (p + 4 ≤ a) → fat_store32 p value m a ≡ m a
unfolding fat_store32 write_byte
fat_store32_outside p value m a (inl h) = ground arith
fat_store32_outside p value m a (inr h) = ground arith

-- So a value at another place stays.
pub fat_load32-fat_store32_apart :
    (p q value : ℕ) (m : Bytes)
    → (q + 4 ≤ p) ⊎ (p + 4 ≤ q)
    → fat_load32 q (fat_store32 p value m) ≡ fat_load32 q m
unfolding fat_load32
fat_load32-fat_store32_apart p q value m apart =
    rw
      (
        fat_store32_outside p value m q (first apart),
        fat_store32_outside p value m (q + 1) (side 1 (omega arith)),
        fat_store32_outside p value m (q + 2) (side 2 (omega arith)),
        fat_store32_outside p value m (q + 3) (side 3 (omega arith)),
      )
      refl
  where
    first : (q + 4 ≤ p) ⊎ (p + 4 ≤ q) → (q < p) ⊎ (p + 4 ≤ q)
    first (inl below) = inl (omega arith)
    first (inr above) = inr (omega arith)

    split : (i : ℕ) → i < 4 → (q + 4 ≤ p) ⊎ (p + 4 ≤ q) → (q + i < p) ⊎ (p + 4 ≤ q + i)
    split i h (inl below) = inl (omega arith)
    split i h (inr above) = inr (omega arith)

    side : (i : ℕ) → i < 4 → (q + i < p) ⊎ (p + 4 ≤ q + i)
    side i h = split i h apart
