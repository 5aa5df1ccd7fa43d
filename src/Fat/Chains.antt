-- ===== src/Fat/Chains.antt =====
-- The chains of clusters in the file allocation table, and the moves along them in
-- kernel/src/disk/fat32.c.
use operating_system_cortex.Base.{
  ℕ, zero, suc, ◌+◌, ◌-◌, ◌*◌, ◌/◌, ◌%◌, ◌^◌, ◌<◌, ◌≤◌, ◌≡◌, ◌≢◌, refl, ap, true, false, some,
  arith, u32, sub32, Bool, not, none, if◌then◌else◌, pure, ◌>>=◌, bind-Returns, ok, Returns,
  returns,
}
use operating_system_cortex.Dlist.{Ptr, null}
use operating_system_cortex.Fat.{
  Storage, Sector, Volume, File, Fs, Fstatus, fstatus_ok, fat_load32, fat_sect_to_clust,
  fat_clust_to_sect, is_eoc, fat_table_get, read_volume,
}
use operating_system_cortex.Fat.Values.{word_at, AreBytes, fat_load32-word_at}
use operating_system_cortex.Fat.Cache.{
  IsCard, Shows, Loaded, Loaded-Shows, read_volume-ok, fat_read-Loaded,
}
use operating_system_cortex.Fat.Files.{Skip, arrived, land, skip_to, skip_clusters, fat_file_jump}

u32-small : (n : ℕ) → n < 2 ^ 32 → u32 n ≡ n
u32-small n h = omega arith

-- The first sector of a cluster, where nothing wraps.
abbrev pub sector_of : Volume → (cluster : ℕ) → ℕ
sector_of v cluster = v.data_lba + (cluster - 2) * v.cluster_size

pub fat_clust_to_sect-sector_of :
    (v : Volume) (c : ℕ)
    → 2 ≤ c
    → c < 2 ^ 32
    → sector_of v c < 2 ^ 32
    → fat_clust_to_sect v c ≡ sector_of v c
unfolding fat_clust_to_sect
fat_clust_to_sect-sector_of v c two small h = rw (clusters) (omega (arith, h))
  where
    clusters : sub32 c 2 ≡ c - 2
    clusters = omega arith

module _ {S : Type 0} (storage : Storage S) (image : ℕ → Sector) (card : IsCard storage image)
    (vol : Ptr) (geo : Volume) where
  -- The entry of a cluster in the table, a word of the image.
  abbrev pub entry_of : (cluster : ℕ) → ℕ
  entry_of cluster = word_at (cluster % 128 * 4) (image (geo.fat_lba + cluster / 128))

  -- The table of a clean volume lies on the card, behind its first sector.
  abbrev pub IsMounted : Type 0
  IsMounted =
      (vol ≢ null)
      × (geo.buffer_dirty ≡ 0)
      × (geo.fat_lba ≢ 0)
      × ((l : ℕ) → AreBytes (image l))
      × (card.capacity ≤ 2 ^ 32)

  abbrev pub InTable : (cluster : ℕ) → Type 0
  InTable cluster = geo.fat_lba + cluster / 128 < card.capacity

  entry_in_buffer :
      (cluster : ℕ) (fs : Fs S)
      → IsMounted
      → Loaded storage image card vol geo (geo.fat_lba + cluster / 128) fs
      → some (fat_load32 (cluster % 128 * 4) (fs.volumes vol).buffer) ≡ some (entry_of cluster)
  entry_in_buffer cluster fs mounted (e, holds) =
      rw e (ap some (fat_load32-word_at _ _ (mounted.3 _ _) (mounted.3 _ _) (mounted.3 _ _)))

  -- A look-up in the table gives the entry of the cluster, if the table holds one.
  pub fat_table_get-entry_of :
      (cluster : ℕ) (fs : Fs S)
      → IsMounted
      → InTable cluster
      → Shows storage image card vol geo fs
      → Returns
          (λ r fs'. (r ≡ some (entry_of cluster)) × Shows storage image card vol geo fs')
          (fat_table_get storage vol cluster fs)
  unfolding fat_table_get
  fat_table_get-entry_of cluster fs mounted inside (b, l, e, fresh, holds) =
      rw (read_volume-ok storage image card vol geo fs mounted.0, e, lba)
        (bind-Returns
          (fat_read-Loaded storage image card vol geo (geo.fat_lba + cluster / 128) fs mounted.0
            mounted.1 some_lba inside (b, l, e, fresh, holds))
          entry)
    where
      lba : u32 (geo.fat_lba + cluster / 128) ≡ geo.fat_lba + cluster / 128
      lba = u32-small _ (omega (arith, inside, mounted.4))

      some_lba : geo.fat_lba + cluster / 128 ≢ 0
      some_lba z = mounted.2 (omega (arith, z))

      entry :
          (done : Bool) (fs' : Fs S)
          → ((done ≡ true) × Loaded storage image card vol geo (geo.fat_lba + cluster / 128) fs')
          → Returns
              (λ r fs'. (r ≡ some (entry_of cluster)) × Shows storage image card vol geo fs')
              ((if not done then pure none else do
                v ← read_volume vol
                pure (some (fat_load32 (cluster % 128 * 4) v.buffer)))
                fs')
      entry done fs' (is_done, shown) =
          rw (is_done, read_volume-ok storage image card vol geo fs' mounted.0)
            (returns _ fs' refl (
              entry_in_buffer cluster fs' mounted shown,
              Loaded-Shows storage image card vol geo _ fs' shown,
            ))

  -- So many steps along the table lead from one cluster to another; none of them ends the chain.
  abbrev pub Chain : (steps start end : ℕ) → Type 0
  Chain zero c d = c ≡ d
  Chain (suc n) c d = InTable c × (is_eoc (entry_of c) ≡ false) × Chain n (entry_of c) d

  abbrev pub Landed : (cluster : ℕ) → File → Skip × File → Fs S → Type 0
  Landed d f r fs = (r ≡ (arrived, record f { cluster = d })) × Shows storage image card vol geo fs

  skip_clusters-Landed :
      (n d : ℕ) (f : File) (fs : Fs S)
      → IsMounted
      → f.vol ≡ vol
      → Chain n f.cluster d
      → Shows storage image card vol geo fs
      → Returns (Landed d f) (skip_clusters storage n f fs)
  unfolding skip_clusters skip_to
  skip_clusters-Landed zero d f fs mounted same chain shown =
      returns (arrived, f) fs refl (rw chain refl, shown)
  skip_clusters-Landed (suc n) d f fs mounted same (inside, more, chain) shown =
      bind-Returns looked_up (λ r fs' (e, shown').
        rw (e, more)
          (skip_clusters-Landed n d (record f { cluster = entry_of f.cluster }) fs' mounted same
            chain shown'))
    where
      looked_up :
          Returns
            (λ r fs'. (r ≡ some (entry_of f.cluster)) × Shows storage image card vol geo fs')
            (fat_table_get storage f.vol f.cluster fs)
      looked_up = rw same (fat_table_get-entry_of f.cluster fs mounted inside shown)

  -- The position of a byte of a file, in the cluster that `land` is given.
  abbrev pub IsAt : (offset cluster : ℕ) → Fstatus × File → Fs S → Type 0
  IsAt offset d (status, f) fs =
      (status ≡ fstatus_ok)
      × (f.cluster ≡ d)
      × (f.sector ≡ sector_of geo d + offset / geo.sector_size % geo.cluster_size)
      × (f.rw_offset ≡ offset % geo.sector_size)
      × (f.glob_offset ≡ offset)
      × Shows storage image card vol geo fs

  -- `fat_file_jump` moves to any byte of a file whose chain is so long: the file is in the cluster
  -- that so many steps from the first one lead to, in the sector and at the byte that the offset says,
  -- if the sectors of that cluster have numbers of 32 bits.
  pub fat_file_jump-IsAt :
      (f : File) (offset d : ℕ) (fs : Fs S)
      → IsMounted
      → f.vol ≡ vol
      → Chain (offset / geo.sector_size / geo.cluster_size) (fat_sect_to_clust geo f.start_sect) d
      → 2 ≤ d
      → d < 2 ^ 32
      → sector_of geo d + offset / geo.sector_size % geo.cluster_size < 2 ^ 32
      → Shows storage image card vol geo fs
      → Returns (IsAt offset d) (fat_file_jump storage f offset fs)
  unfolding fat_file_jump fat_sect_to_clust fat_clust_to_sect land
  fat_file_jump-IsAt f offset d fs mounted same chain two small sectors (b, l, e, fresh, holds) =
      rw (read_file, e)
        (bind-Returns
          (skip_clusters-Landed (offset / geo.sector_size / geo.cluster_size) d
            (record f { cluster = fat_sect_to_clust geo f.start_sect }) fs mounted same chain
            (b, l, e, fresh, holds))
          (λ r fs' (landed, shown).
            rw landed (returns _ fs' refl (refl, refl, u32_sum, refl, refl, shown))))
    where
      read_file : read_volume f.vol fs ≡ ok (fs.volumes vol, fs)
      read_file = rw same (read_volume-ok storage image card vol geo fs mounted.0)

      u32_sum :
          u32 (fat_clust_to_sect geo d + offset / geo.sector_size % geo.cluster_size)
          ≡ sector_of geo d + offset / geo.sector_size % geo.cluster_size
      u32_sum =
          rw (fat_clust_to_sect-sector_of geo d two small (omega (arith, sectors)))
            (u32-small _ sectors)
