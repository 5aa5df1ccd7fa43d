-- ===== src/Fat/Search.antt =====
-- kernel/src/disk/fat32.c: the search for a name in a directory, and the volume label.
use operating_system_cortex.Base.{
  ℕ, zero, suc, ◌+◌, ◌*◌, ◌/◌, ◌%◌, ◌^◌, Bool, true, false, ◌==◌, ◌&&◌, ◌||◌, not, if◌then◌else◌,
  u8, bit_or, Cmd, hang, pure, ◌>>=◌, ◌>>◌, ltb,
}
use operating_system_cortex.Dlist.{Ptr}
use operating_system_cortex.Bytes.{Bytes, write_byte}
use operating_system_cortex.Fat.{
  Storage, Sector, Volume, Dir, Fs, Fstatus, fstatus_ok, fstatus_error, fat_load16, fat_load32,
  fat_sect_to_clust, fat_clust_to_sect, within, read_volume, update_volume, fat_read, fat_flush,
}
use operating_system_cortex.Fat.Clusters.{fat_dir_get_next}
use operating_system_cortex.Fat.Names.{fat_dir_sfn_cmp, fat_dir_lfn_cmp, fat_get_sfn_crc}

-- The offsets in a directory entry, and ATTR_LFN and ATTR_VOL_LABEL by their digits.
abbrev pub sfn_attr : ℕ
sfn_attr = 11

abbrev pub lfn_crc : ℕ
lfn_crc = 13

abbrev pub sfn_clusth : ℕ
sfn_clusth = 20

abbrev pub sfn_clustl : ℕ
sfn_clustl = 26

abbrev pub sfn_file_size : ℕ
sfn_file_size = 28

unfoldable pub is_lfn : (attribute : ℕ) → Bool
is_lfn attribute = attribute % 16 == 15

unfoldable pub is_vol_label : (attribute : ℕ) → Bool
is_vol_label attribute = (attribute / 8 % 2 == 1) && not (is_lfn attribute)

-- What the search makes of an entry: the end of the directory, the entry looked for, or another,
-- with the checksum of the long name before the next entry and whether it agrees so far.
pub data Visit : Type 0 where
  end_of_dir : Visit
  matched : Visit
  passed : (crc : ℕ) → (agrees : Bool) → Visit

unfoldable pub visit_sfn :
    Sector → (offset : ℕ) → Bytes → (name : Ptr) → (size crc : ℕ) → (agrees : Bool) → Visit
visit_sfn buffer offset m name size crc agrees =
    if (if not (crc == 0) && agrees
      then crc == fat_get_sfn_crc buffer offset
      else fat_dir_sfn_cmp buffer offset m name (u8 size))
    then matched
    else passed 0 true

unfoldable pub visit_lfn :
    Sector → (offset : ℕ) → Bytes → (name : Ptr) → (size : ℕ) → (agrees : Bool) → Visit
visit_lfn buffer offset m name size agrees =
    passed (buffer (offset + lfn_crc)) (agrees && fat_dir_lfn_cmp buffer offset m name size)

unfoldable pub visit_entry :
    Sector → (offset : ℕ) → Bytes → (name : Ptr) → (size crc : ℕ) → (agrees : Bool) → Visit
visit_entry buffer offset m name size crc agrees =
    if buffer offset == 0x00
    then end_of_dir
    else if (buffer offset == 0x05) || (buffer offset == 0xE5)
    then passed crc agrees
    else if is_lfn (buffer (offset + sfn_attr))
    then visit_lfn buffer offset m name size agrees
    else visit_sfn buffer offset m name size crc agrees

-- The directory of the entry that matched.
unfoldable pub enter : Volume → Dir → Dir
enter v d =
    let cluster =
      bit_or (fat_load16 (d.rw_offset + sfn_clusth) v.buffer * 2 ^ 16)
        (fat_load16 (d.rw_offset + sfn_clustl) v.buffer) in
    record d {
      cluster = cluster;
      sector = fat_clust_to_sect v cluster;
      start_sect = fat_clust_to_sect v cluster;
      size = fat_load32 (d.rw_offset + sfn_file_size) v.buffer;
      rw_offset = 0;
    }

-- A search starts from the leading entry, if the directory has left its first sector.
unfoldable pub rewind : Volume → Dir → Dir
rewind v d = if d.start_sect == d.sector then d else record d {
  sector = d.start_sect;
  cluster = fat_sect_to_clust v d.start_sect;
  rw_offset = 0;
}

-- Where the label of a volume is: in the entry at the offset in the buffer, in none, or unknown.
pub data Label : Type 0 where
  label_at : (offset : ℕ) → Label
  no_label : Label
  unread : Label

-- A directory object that points to the root directory, of which only these fields are set.
unfoldable pub root_dir : (vol : Ptr) → Volume → Dir
root_dir vol v = record {
  sector = v.root_lba;
  cluster = fat_sect_to_clust v v.root_lba;
  rw_offset = 0;
  start_sect = 0;
  size = 0;
  vol = vol;
}

-- The label gets the name, padded with spaces to eleven characters.
unfoldable pub write_label :
    (count : ℕ) → Bytes → (name : Ptr) → (length : ℕ) → (offset : ℕ) → Sector → Sector
write_label zero m name length offset buffer = buffer
write_label (suc count) m name zero offset buffer =
    write_label count m name 0 (offset + 1) (write_byte buffer offset 0x20)
write_label (suc count) m name (suc length) offset buffer =
    write_label count m (name + 1) length (offset + 1) (write_byte buffer offset (m name))

module _ {S : Type 0} (storage : Storage S) where
  unfoldable pub search_on :
      (rest : (crc : ℕ) → (agrees : Bool) → Dir → Cmd (Fs S) (Bool × Dir))
      → Volume
      → Dir
      → Visit
      → Cmd (Fs S) (Bool × Dir)
  search_on rest v d end_of_dir = pure (false, d)
  search_on rest v d matched = pure (true, enter v d)
  search_on rest v d (passed crc agrees) = do
    (more, d') ← fat_dir_get_next storage d
    if not more then pure (false, d') else rest crc agrees d'

  -- The loop of `fat_dir_search`, on fuel.
  unfoldable pub search_from :
      (fuel : ℕ)
      → Bytes
      → (name : Ptr) → (size crc : ℕ) → (agrees : Bool) → Dir
      → Cmd (Fs S) (Bool × Dir)
  search_from zero m name size crc agrees d = λ fs. hang
  search_from (suc fuel) m name size crc agrees d = do
    done ← fat_read storage d.vol d.sector
    if not done then pure (false, d) else do
      within (d.rw_offset + 31)
      v ← read_volume (d.vol)
      search_on (search_from fuel m name size) v d
          (visit_entry v.buffer d.rw_offset m name size crc agrees)

  unfoldable pub fat_dir_search :
      (fuel : ℕ) → Bytes → (name : Ptr) → (size : ℕ) → Dir → Cmd (Fs S) (Bool × Dir)
  fat_dir_search fuel m name size d = do
    v ← read_volume (d.vol)
    search_from fuel m name size 0 true (rewind v d)

  -- The loop of `fat_get_vol_label` and of `volume_set_label`, on fuel.
  unfoldable pub find_label : (fuel : ℕ) → Dir → Cmd (Fs S) Label
  find_label zero d = λ fs. hang
  find_label (suc fuel) d = do
    done ← fat_read storage d.vol d.sector
    if not done then pure unread else do
      within (d.rw_offset + 31)
      v ← read_volume (d.vol)
      let found = is_vol_label (v.buffer (d.rw_offset + sfn_attr))
      if found then pure (label_at d.rw_offset) else do
        (more, d') ← fat_dir_get_next storage d
        if not more then pure no_label else find_label fuel d'

  -- `return 1` is FSTATUS_ERROR. The label is returned with the status.
  unfoldable pub fat_get_vol_label :
      (fuel : ℕ) → (vol : Ptr) → (label : Bytes) → Cmd (Fs S) (Fstatus × Bytes)
  fat_get_vol_label fuel vol label = do
    v ← read_volume vol
    found ← find_label fuel (root_dir vol v)
    v ← read_volume vol
    pure (fstatus_error, copied v found)
    where
      copied : Volume → Label → Bytes
      copied v (label_at offset) = λ i. if ltb i 11 then v.buffer (offset + i) else label i
      copied v no_label = label
      copied v unread = label

  -- `return 0` is FSTATUS_OK, and `return 1` FSTATUS_ERROR.
  unfoldable pub volume_set_label :
      (fuel : ℕ) → (vol : Ptr) → Bytes → (name : Ptr) → (length : ℕ) → Cmd (Fs S) Fstatus
  volume_set_label fuel vol m name length = do
    v ← read_volume vol
    found ← find_label fuel (root_dir vol v)
    set_label found
    where
      set_label : Label → Cmd (Fs S) Fstatus
      set_label (label_at offset) = do
        update_volume vol (λ v. record v {
          buffer = write_label 11 m name length offset v.buffer;
          buffer_dirty = 1;
        })
        fat_flush storage vol
        pure fstatus_error
      set_label no_label = pure fstatus_ok
      set_label unread = pure fstatus_error
