-- ===== src/Fat/Clusters.antt =====
-- kernel/src/disk/fat32.c: the allocation of a cluster, and the moves of a directory and of a file
-- to their next entry, sector and cluster.
use operating_system_cortex.Base.{
  ℕ, ◌+◌, ◌-◌, ◌*◌, ◌/◌, ◌%◌, ◌^◌, Bool, true, false, ◌==◌, ltb, leb, not, ◌&&◌, zero, suc,
  if◌then◌else◌, Option, none, some, u32, sub32, Cmd, hang, pure, ◌>>=◌, ◌>>◌,
}
use operating_system_cortex.Dlist.{Ptr}
use operating_system_cortex.Fat.{
  Storage, Volume, Dir, File, Fs, fat_store32, fat_load32, fat_clust_to_sect, is_eoc, within,
  read_volume, update_volume, fat_read, fat_flush, fat_table_get,
}

-- INFO_CLUST_CNT and INFO_NEXT_FREE
abbrev pub info_clust_cnt : ℕ
info_clust_cnt = 488

abbrev pub info_next_free : ℕ
info_next_free = 492

-- The position behind the entry at `offset` of `sector`.
unfoldable pub next_entry : Volume → (sector offset : ℕ) → ℕ × ℕ
next_entry v sector offset =
    if leb v.sector_size (offset + 4) then (u32 (sector + 1), 0) else (sector, offset + 4)

-- The number of the cluster whose entry is at `offset` of `sector`.
unfoldable pub cluster_at : Volume → (sector offset : ℕ) → ℕ
cluster_at v sector offset = u32 (128 * sub32 sector v.fat_lba + offset / 4)

-- The first free entry is claimed, and the search goes on to the next.
unfoldable pub claim_entry :
    {S : Type 0} → (vol : Ptr) → (offset : ℕ) → (free : Bool) → Option ℕ → Cmd (Fs S) (Unit {0})
claim_entry vol offset true none =
    update_volume vol
      (λ v. record v { buffer = fat_store32 offset 0xFFFFFFF v.buffer; buffer_dirty = 1 })
claim_entry vol offset free found = pure tt

unfoldable pub found_after : Volume → (sector offset : ℕ) → (free : Bool) → Option ℕ → Option ℕ
found_after v sector offset true none = some (cluster_at v sector offset)
found_after v sector offset free found = found

abbrev pub is_found : Option ℕ → Bool
is_found none = false
is_found (some cluster) = true

unfoldable pub dir_next_cluster : Volume → Dir → Option ℕ → Bool × Dir
dir_next_cluster v d none = (false, d)
dir_next_cluster v d (some new_cluster) =
    if is_eoc new_cluster
    then (false, d)
    else (true, record d { cluster = new_cluster; sector = fat_clust_to_sect v new_cluster })

-- Is `sector` behind the last one of `cluster`?
unfoldable pub past_cluster : Volume → (cluster sector : ℕ) → Bool
past_cluster v cluster sector = leb (u32 (fat_clust_to_sect v cluster + v.cluster_size)) sector

unfoldable pub file_next_cluster : Volume → File → Option ℕ → Bool × File
file_next_cluster v f none = (false, f)
file_next_cluster v f (some new_cluster) =
    if is_eoc new_cluster
    then (false, f)
    else (true, record f { cluster = new_cluster; sector = fat_clust_to_sect v new_cluster })

module _ {S : Type 0} (storage : Storage S) where
  -- The loop of `fat_get_cluster`, on fuel: the claimed cluster, once there is one, and the
  -- position of the next free entry.
  unfoldable pub claim_from :
      (fuel : ℕ) → (vol : Ptr) → (sector offset : ℕ) → Option ℕ → Cmd (Fs S) (Option (Option ℕ × ℕ))
  claim_from zero vol sector offset found = λ fs. hang
  claim_from (suc fuel) vol sector offset found = do
    done ← fat_read storage vol sector
    if not done then pure none else do
      within (offset + 3)
      v ← read_volume vol
      let free = fat_load32 offset v.buffer % 2 ^ 7 == 0
      if free && is_found found then pure (some (found, cluster_at v sector offset)) else do
        claim_entry vol offset free found
        let (sector', offset') = next_entry v sector offset
        claim_from fuel vol sector' offset' (found_after v sector offset free found)

  -- The update of the file system's information sector.
  unfoldable pub note_cluster :
      (vol : Ptr) → (tot_free : ℕ) → Option (Option ℕ × ℕ) → Cmd (Fs S) (Option (Option ℕ))
  note_cluster vol tot_free none = pure none
  note_cluster vol tot_free (some (cluster, next_free)) = do
    v ← read_volume vol
    done ← fat_read storage vol v.fsinfo_lba
    if not done then pure none else do
      update_volume vol (λ v. record v {
        buffer =
            fat_store32 info_clust_cnt (sub32 tot_free 1)
              (fat_store32 info_next_free next_free v.buffer);
        buffer_dirty = 1;
      })
      fat_flush storage vol
      pure (some cluster)

  -- The cluster, unless the function returns 0.
  unfoldable pub fat_get_cluster : (fuel : ℕ) → (vol : Ptr) → Cmd (Fs S) (Option (Option ℕ))
  fat_get_cluster fuel vol = do
    v ← read_volume vol
    done ← fat_read storage vol v.fsinfo_lba
    if not done then pure none else do
      info ← read_volume vol
      let next_free = fat_load32 info_next_free info.buffer
      let tot_free = fat_load32 info_clust_cnt info.buffer
      found ← claim_from fuel vol (u32 (v.fat_lba + next_free / 128)) (next_free % 128 * 4) none
      note_cluster vol tot_free found

  unfoldable pub fat_dir_get_next : Dir → Cmd (Fs S) (Bool × Dir)
  fat_dir_get_next d = do
    v ← read_volume (d.vol)
    let rw_offset = u32 (d.rw_offset + 32)
    let sector = u32 (d.sector + 1)
    if ltb rw_offset v.sector_size then pure (true, record d { rw_offset = rw_offset }) else do
      let d₁ = record d { rw_offset = rw_offset - v.sector_size; sector = sector }
      if not (past_cluster v d.cluster sector)
          then pure (true, d₁)
          else do entry ← fat_table_get storage d.vol d.cluster; pure (dir_next_cluster v d₁ entry)

  unfoldable pub fat_file_addr_resolve : File → Cmd (Fs S) (Bool × File)
  fat_file_addr_resolve f = do
    v ← read_volume (f.vol)
    if ltb f.rw_offset v.sector_size then pure (true, f) else do
      let sector = u32 (f.sector + 1)
      let f₁ = record f { rw_offset = f.rw_offset - v.sector_size; sector = sector }
      if not (past_cluster v f.cluster sector)
          then pure (true, f₁)
          else do entry ← fat_table_get storage f.vol f.cluster; pure (file_next_cluster v f₁ entry)
