-- ===== src/Crc/Tests.antt =====
-- The CRC of some bytes.
use operating_system_cortex.Base.{◌<◌, ◌≡◌, refl, [], ◌∷◌, arith}
use operating_system_cortex.Crc.{crc_calculate, crc_calculate-lt, crc_from, crc_bits, crc_bit}

crc_calculate-lt_example : crc_calculate (0x12 ∷ 0xFE ∷ []) 0xB2 < 128
crc_calculate-lt_example =
    crc_calculate-lt (0x12 ∷ 0xFE ∷ []) 0xB2 (omega arith, (omega arith, tt)) (omega arith)

-- Two different bytes with one CRC.
same_crc : crc_calculate (0xB3 ∷ []) 0xB2 ≡ crc_calculate (0 ∷ []) 0xB2
unfolding crc_calculate crc_from crc_bits crc_bit
same_crc = refl
