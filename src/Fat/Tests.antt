-- ===== src/Fat/Tests.antt =====
-- A card with a table at sector 1, whose chain leads from cluster 2 to cluster 3, of one sector each,
-- and a volume at address 64.
use operating_system_cortex.Base.{
  ℕ, suc, ◌+◌, ◌%◌, ◌≡◌, refl, ◌==◌, if◌then◌else◌, [], ◌∷◌, arith, true, false, some, Returns,
  returns, inl, ok,
}
use operating_system_cortex.Fat.{
  Storage, Sector, disk_sd_card, Volume, File, Fs, fat_sect_to_clust, is_eoc, fat_table_get,
}
use operating_system_cortex.Fat.Values.{AreBytes}
use operating_system_cortex.Fat.Cache.{IsCard, Shows}
use operating_system_cortex.Fat.Chains.{
  IsMounted, entry_of, Chain, IsAt, fat_table_get-entry_of, fat_file_jump-IsAt,
}
use operating_system_cortex.Fat.Files.{fat_file_jump}
use operating_system_cortex.Fat.Letters.{with_letter, volume_get-with_letter}
use operating_system_cortex.Fat.Volumes.{volume_get, fat_volume_add}
use operating_system_cortex.Fat.Added.{HasVolumes, fat_volume_add-HasVolumes}

abbrev image : ℕ → Sector
image l i =
    if l == 1
    then (if i == 8
        then 3
        else if i == 12
        then 255
        else if i == 13
        then 255
        else if i == 14
        then 255
        else if i == 15
        then 15
        else 0)
    else (i + l) % 256

-- The card's state is the number of the sectors read.
abbrev storage : Storage ℕ
storage = record {
  sd_is_connected = λ s. true;
  sd_protocol_init = λ s. ok (tt, s);
  sd_read = λ l s. ok (some (image l), suc s);
  sd_write = λ l b s. ok (false, s);
}

abbrev card : IsCard storage image
card = record {
  capacity = 100;
  Holds = λ s. Unit {0};
  reads = λ s l holds h. returns (some (image l)) (suc s) refl (refl, tt);
}

abbrev geo : Volume
geo = record {
  next = 0;
  label = λ i. 0;
  letter = 0x43;
  sector_size = 512;
  cluster_size = 1;
  total_size = 100;
  fat_lba = 1;
  fsinfo_lba = 2;
  data_lba = 3;
  root_lba = 3;
  buffer = λ i. 0;
  buffer_lba = 0;
  disk = disk_sd_card;
  buffer_dirty = 0;
}

abbrev fs : Fs ℕ
fs = record {
  volume_base = 64;
  volume_bitmask = 1;
  volumes = λ a. geo;
  mm = record { memory = λ a. record { next = 0; size = 0 }; physical_memories = [] };
  device = 0;
}

image-AreBytes : (l : ℕ) → AreBytes (image l)
image-AreBytes l a = ground arith

fs-IsMounted : IsMounted storage image card 64 geo
fs-IsMounted = (λ e. omega (arith, e), refl, λ e. omega (arith, e), image-AreBytes, omega arith)

fs-Shows : Shows storage image card 64 geo fs
fs-Shows = ((λ i. 0), 0, refl, inl refl, tt)

fat_table_get-entry_of_example :
    Returns
      (λ r fs'.
        (r ≡ some (entry_of storage image card 64 geo 2)) × Shows storage image card 64 geo fs')
      (fat_table_get storage 64 2 fs)
fat_table_get-entry_of_example =
    fat_table_get-entry_of storage image card 64 geo 2 fs fs-IsMounted (omega arith) fs-Shows

abbrev file : File
file = record {
  sector = 3;
  cluster = 2;
  rw_offset = 500;
  size = 1000;
  start_sect = 3;
  glob_offset = 500;
  vol = 64;
}

file-Chain : Chain storage image card 64 geo 1 (fat_sect_to_clust geo 3) 3
unfolding is_eoc fat_sect_to_clust
file-Chain = (omega arith, refl, refl)

fat_file_jump-IsAt_example :
    Returns (IsAt storage image card 64 geo 600 3) (fat_file_jump storage file 600 fs)
fat_file_jump-IsAt_example =
    fat_file_jump-IsAt storage image card 64 geo file 600 3 fs fs-IsMounted refl file-Chain
      (omega arith) (omega arith) (omega arith) fs-Shows

fs-HasVolumes : HasVolumes (64 ∷ []) fs
fs-HasVolumes =
    ((refl, λ e. omega (arith, e), refl), (refl, tt), ((0, omega arith, refl, refl), refl, tt))

volume_get-with_letter_example :
    volume_get 2 0x43 fs ≡ ok (with_letter fs.volumes 0x43 (64 ∷ []), fs)
volume_get-with_letter_example =
    volume_get-with_letter 2 0x43 fs (64 ∷ []) fs-HasVolumes.0 (omega arith)

fat_volume_add-HasVolumes_example :
    Returns
      (λ added fs'. (added ≡ true) × HasVolumes (64 ∷ 2000 ∷ []) fs')
      (fat_volume_add 2 2000 fs)
fat_volume_add-HasVolumes_example =
    fat_volume_add-HasVolumes 2 2000 1 fs (64 ∷ []) fs-HasVolumes refl (λ e. omega (arith, e))
      (omega arith) refl (omega arith)
