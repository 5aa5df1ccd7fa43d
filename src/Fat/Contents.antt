-- ===== src/Fat/Contents.antt =====
-- `fat_file_read` of kernel/src/disk/fat32.c as a whole.
use operating_system_cortex.Base.{
  ℕ, suc, ◌+◌, ◌*◌, ◌^◌, ◌<◌, ◌≤◌, ◌≡◌, ◌⊎◌, List, ◌∷◌, length, Returns,
}
use operating_system_cortex.Dlist.{Ptr}
use operating_system_cortex.Fat.{Storage, Sector, Volume, File, Fs}
use operating_system_cortex.Fat.Cache.{IsCard}
use operating_system_cortex.Fat.Chains.{IsMounted}
use operating_system_cortex.Fat.Files.{read_from}
use operating_system_cortex.Fat.Reading.{byte_of, Follows, HasRead}

module _ {S : Type 0} (storage : Storage S) (image : ℕ → Sector) (card : IsCard storage image)
    (vol : Ptr) (geo : Volume) (mounted : IsMounted storage image card vol geo)
    (size : geo.sector_size ≡ 512) where
  -- The file is in the sectors `f.sector ∷ l` of the volume, before the end of its contents, and these
  -- sectors reach so far.
  abbrev pub IsOpen : File → List ℕ → (n : ℕ) → Type 0
  IsOpen f l n =
      (f.vol ≡ vol)
      × (f.glob_offset + n ≤ f.size)
      × (f.size < 2 ^ 32)
      × (f.rw_offset ≤ 512)
      × (f.rw_offset + n ≤ 512 * suc (length l))
      × Follows storage image card vol geo f.cluster f.sector l

  abbrev Reads : File → List ℕ → (count n : ℕ) → Fs S → Type 0
  Reads f l count n fs =
      Returns (HasRead storage image card vol geo n f (byte_of image (f.sector ∷ l)) f.rw_offset)
        (read_from storage count 512 f fs)

  -- What is left to read: the count, or what is left of the contents.
  abbrev pub Wanted : File → (count n : ℕ) → Type 0
  Wanted f count n = (n ≤ count) × ((n ≡ count) ⊎ (f.glob_offset + n ≡ f.size))
