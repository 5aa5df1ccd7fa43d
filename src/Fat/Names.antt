-- ===== src/Fat/Names.antt =====
-- kernel/src/disk/fat32.c: the names in directory entries, compared with a name in memory, and the
-- checksum that joins a long name with its entry. Characters are bytes, not signed.
use operating_system_cortex.Base.{
  ℕ, zero, suc, ◌+◌, ◌-◌, ◌*◌, ◌/◌, ◌%◌, ◌^◌, min, Bool, true, false, ◌==◌, leb, ◌&&◌, ◌||◌,
  if◌then◌else◌, List, [], ◌∷◌, u8,
}
use operating_system_cortex.Dlist.{Ptr}
use operating_system_cortex.Bytes.{Bytes}
use operating_system_cortex.Fat.{Sector}

-- `lfn_lut`: where the characters of a long name are in its entry
abbrev pub lfn_lut : List ℕ
lfn_lut = 1 ∷ 3 ∷ 5 ∷ 7 ∷ 9 ∷ 14 ∷ 16 ∷ 18 ∷ 20 ∷ 22 ∷ 24 ∷ 28 ∷ 30 ∷ []

unfoldable pub to_upper : (c : ℕ) → ℕ
to_upper c = if leb 97 c && leb c 122 then c - 32 else c

-- The number of rounds of the `do` loop for a `u8` size, which begins with a round.
unfoldable pub sfn_rounds : (size : ℕ) → ℕ
sfn_rounds zero = 256
sfn_rounds (suc size) = min (suc size) 8

unfoldable pub sfn_cmp_from : (rounds : ℕ) → Sector → (sfn : Ptr) → Bytes → (name : Ptr) → Bool
sfn_cmp_from zero buffer sfn m name = true
sfn_cmp_from (suc rounds) buffer sfn m name =
    let rest = sfn_cmp_from rounds buffer (sfn + 1) m (name + 1) in
    if to_upper (m name) == buffer sfn then rest else false

unfoldable pub fat_dir_sfn_cmp : Sector → (sfn : Ptr) → Bytes → (name : Ptr) → (size : ℕ) → Bool
fat_dir_sfn_cmp buffer sfn m name size = sfn_cmp_from (sfn_rounds size) buffer sfn m name

-- `13 * ((lfn[LFN_SEQ] & LFN_SEQ_MSK) - 1)` in a byte
unfoldable pub name_offset : (seq : ℕ) → ℕ
name_offset seq = u8 (13 * (seq % 32) + (256 - 13))

abbrev pub is_padding : (c : ℕ) → Bool
is_padding c = (c == 0x00) || (c == 0xFF)

-- The loop over `lfn_lut`, for the character at `offset` of the name and those behind it.
unfoldable pub lfn_cmp_from :
    List ℕ → Sector → (lfn : Ptr) → Bytes → (name : Ptr) → (offset size : ℕ) → Bool
lfn_cmp_from [] buffer lfn m name offset size = true
lfn_cmp_from (i ∷ is) buffer lfn m name offset size =
    let rest = lfn_cmp_from is buffer lfn m name (offset + 1) size in
    if is_padding (buffer (lfn + i))
    then true
    else if leb size offset
    then false
    else if buffer (lfn + i) == m (name + offset)
    then rest
    else false

unfoldable pub fat_dir_lfn_cmp : Sector → (lfn : Ptr) → Bytes → (name : Ptr) → (size : ℕ) → Bool
fat_dir_lfn_cmp buffer lfn m name size =
    lfn_cmp_from lfn_lut buffer lfn m name (name_offset (buffer lfn)) size

unfoldable pub sfn_crc_from : (count : ℕ) → Sector → (sfn : Ptr) → (crc : ℕ) → ℕ
sfn_crc_from zero buffer sfn crc = crc
sfn_crc_from (suc count) buffer sfn crc =
    sfn_crc_from count buffer (sfn + 1) (u8 (crc % 2 * 2 ^ 7 + crc / 2 + buffer sfn))

unfoldable pub fat_get_sfn_crc : Sector → (sfn : Ptr) → ℕ
fat_get_sfn_crc buffer sfn = sfn_crc_from 11 buffer sfn 0
