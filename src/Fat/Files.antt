-- ===== src/Fat/Files.antt =====
-- kernel/src/disk/fat32.c: reading a file, moving in it, and reading a directory.
use operating_system_cortex.Base.{
  ℕ, zero, suc, ◌+◌, ◌/◌, ◌%◌, Bool, true, false, ◌==◌, leb, ltb, ◌||◌, not, if◌then◌else◌, Option,
  none, some, List, [], ◌∷◌, u8, u32, Run, Cmd, ok, fault, hang, pure, ◌>>=◌, ◌>>◌, bind,
}
use operating_system_cortex.Dlist.{Ptr}
use operating_system_cortex.Bytes.{Bytes, write_byte}
use operating_system_cortex.Fat.{
  Storage, Sector, Volume, Dir, File, Fs, Fstatus, fstatus_ok, fstatus_error, fstatus_eof,
  fat_load16, fat_load32, fat_sect_to_clust, fat_clust_to_sect, is_eoc, within, read_volume,
  fat_read, fat_table_get,
}
use operating_system_cortex.Fat.Clusters.{fat_dir_get_next, fat_file_addr_resolve}
use operating_system_cortex.Fat.Names.{lfn_lut, name_offset, is_padding, fat_get_sfn_crc}
use operating_system_cortex.Fat.Paths.{computed}
use operating_system_cortex.Fat.Search.{is_lfn, sfn_attr, lfn_crc, sfn_file_size}

-- `struct info`
pub record Info : Type 0 where
  pub name : Bytes
  pub name_length : ℕ
  pub attribute : ℕ
  pub c_time_tenth : ℕ
  pub c_time : ℕ
  pub c_date : ℕ
  pub a_date : ℕ
  pub w_time : ℕ
  pub w_date : ℕ
  pub size : ℕ

-- The bytes read, in order, the file and the status of the call. `*status` is their number.
pub record Read : Type 0 where
  pub outcome : Fstatus
  pub bytes : List ℕ
  pub file : File

abbrev pub read_nothing : File → Read
read_nothing f = record { outcome = fstatus_ok; bytes = []; file = f }

abbrev pub advance : File → File
advance f = record f { rw_offset = u32 (f.rw_offset + 1); glob_offset = u32 (f.glob_offset + 1) }

abbrev pub with_byte : ℕ → Read → Read
with_byte byte r = record r { bytes = byte ∷ r.bytes }

-- The characters of a long name's entry, which `lfn_lut` lists, into the name of 256 bytes.
unfoldable pub copy_lfn :
    List ℕ → Sector → (entry : Ptr) → (offset : ℕ) → Bytes → (name_length : ℕ) → Run (Bytes × ℕ)
copy_lfn [] buffer entry offset name name_length = ok (name, name_length)
copy_lfn (i ∷ is) buffer entry offset name name_length =
    let char = buffer (entry + i) in
    let skipped = copy_lfn is buffer entry (offset + 1) name name_length in
    let copied =
      copy_lfn is buffer entry (offset + 1) (write_byte name offset char) (u8 (name_length + 1)) in
    if is_padding char then skipped else if ltb offset 256 then copied else fault

-- The eleven characters of a short name.
unfoldable pub copy_sfn : Sector → (entry : Ptr) → Bytes → Bytes
copy_sfn buffer entry name i = if ltb i 11 then buffer (entry + i) else name i

unfoldable pub fill_info : Sector → (entry : Ptr) → (name_length : ℕ) → Info → Info
fill_info buffer entry name_length info = record info {
  attribute = buffer (entry + sfn_attr);
  c_time_tenth = buffer (entry + 13);
  c_time = fat_load16 (entry + 14) buffer;
  c_date = fat_load16 (entry + 16) buffer;
  w_time = fat_load16 (entry + 22) buffer;
  w_date = fat_load16 (entry + 24) buffer;
  a_date = fat_load16 (entry + 18) buffer;
  size = fat_load32 (entry + sfn_file_size) buffer;
  name_length = name_length;
}

-- What the reader makes of an entry: an end, or the next one with the checksum of the long name
-- before it and the length of that name, or an object.
pub data Item : Type 0 where
  finished : Fstatus → Info → Item
  skipped : (crc name_length : ℕ) → Info → Item
  object : Info → Item

unfoldable pub read_sfn : Sector → (entry : Ptr) → (crc name_length : ℕ) → Info → Item
read_sfn buffer entry crc name_length info =
    if crc == 0
    then object (
        fill_info buffer entry (u8 (name_length + 11))
          (record info { name = copy_sfn buffer entry info.name }))
    else if crc == fat_get_sfn_crc buffer entry
    then object (fill_info buffer entry name_length info)
    else finished fstatus_error info

unfoldable pub read_lfn : Sector → (entry : Ptr) → (name_length : ℕ) → Info → Run Item
read_lfn buffer entry name_length info =
    bind (copy_lfn lfn_lut buffer entry (name_offset (buffer entry)) info.name name_length)
      (λ (name, name_length).
        ok (skipped (buffer (entry + lfn_crc)) name_length (record info { name = name })))

unfoldable pub read_item : Sector → (entry : Ptr) → (crc name_length : ℕ) → Info → Run Item
read_item buffer entry crc name_length info =
    if buffer entry == 0x00
    then ok (finished fstatus_eof info)
    else if (buffer entry == 0xE5) || (buffer entry == 0x05)
    then ok (skipped crc name_length info)
    else if is_lfn (buffer (entry + sfn_attr))
    then read_lfn buffer entry name_length info
    else ok (read_sfn buffer entry crc name_length info)

-- How the walk along a chain of clusters ends. At the end of the chain `fat_file_jump` returns 0,
-- which is FSTATUS_OK.
pub data Skip : Type 0 where
  arrived chain_ended read_failed : Skip

unfoldable pub land : Volume → (offset : ℕ) → Skip → File → Fstatus × File
land v offset read_failed f = (fstatus_error, f)
land v offset chain_ended f = (fstatus_ok, f)
land v offset arrived f = (
  fstatus_ok,
  record f {
    sector = u32 (fat_clust_to_sect v f.cluster + offset / v.sector_size % v.cluster_size);
    rw_offset = offset % v.sector_size;
    glob_offset = offset;
  },
)

module _ {S : Type 0} (storage : Storage S) where
  -- The byte's sector is in the buffer then. What `fat_file_addr_resolve` returns is not read.
  unfoldable pub locate : (sector_size : ℕ) → File → Cmd (Fs S) (Bool × File)
  locate sector_size f = if ltb f.rw_offset sector_size then pure (true, f) else do
    (resolved, f') ← fat_file_addr_resolve storage f
    done ← fat_read storage f'.vol f'.sector
    pure (done, f')

  -- One round of `fat_file_read`, once the byte is located, and those behind it.
  unfoldable pub read_next :
      (rest : File → Cmd (Fs S) Read) → (done : Bool) → File → Cmd (Fs S) Read
  read_next rest false f = pure (record { outcome = fstatus_error; bytes = []; file = f })
  read_next rest true f = do
    within (f.rw_offset)
    v ← read_volume (f.vol)
    let byte = v.buffer f.rw_offset
    let f' = advance f
    if leb f.size f'.glob_offset
        then pure (with_byte byte (read_nothing f'))
        else do r ← rest f'; pure (with_byte byte r)

  -- The loop of `fat_file_read`.
  unfoldable pub read_from : (count : ℕ) → (sector_size : ℕ) → File → Cmd (Fs S) Read
  read_from zero sector_size f = pure (read_nothing f)
  read_from (suc count) sector_size f = do
    (done, f') ← locate sector_size f
    read_next (read_from count sector_size) done f'

  unfoldable pub fat_file_read : File → (count : ℕ) → Cmd (Fs S) Read
  fat_file_read f count = do
    v ← read_volume (f.vol)
    done ← fat_read storage f.vol f.sector
    if not done
        then pure (record { outcome = fstatus_error; bytes = []; file = f })
        else read_from count v.sector_size f

  unfoldable pub skip_to :
      (rest : File → Cmd (Fs S) (Skip × File)) → Option ℕ → File → Cmd (Fs S) (Skip × File)
  skip_to rest none f = pure (read_failed, f)
  skip_to rest (some new_cluster) f =
      if is_eoc new_cluster
      then pure (chain_ended, f)
      else rest (record f { cluster = new_cluster })

  -- The loop of `fat_file_jump`.
  unfoldable pub skip_clusters : (cluster_offset : ℕ) → File → Cmd (Fs S) (Skip × File)
  skip_clusters zero f = pure (arrived, f)
  skip_clusters (suc cluster_offset) f = do
    entry ← fat_table_get storage f.vol f.cluster
    skip_to (skip_clusters cluster_offset) entry f

  unfoldable pub fat_file_jump : File → (offset : ℕ) → Cmd (Fs S) (Fstatus × File)
  fat_file_jump f offset = do
    v ← read_volume (f.vol)
    let sector_offset = offset / v.sector_size
    let f₁ = record f { cluster = fat_sect_to_clust v f.start_sect }
    (end, f₂) ← skip_clusters (sector_offset / v.cluster_size) f₁
    pure (land v offset end f₂)

  unfoldable pub read_on :
      (rest : Dir → (crc name_length : ℕ) → Info → Cmd (Fs S) (Fstatus × Dir × Info))
      → Dir
      → Item
      → Cmd (Fs S) (Fstatus × Dir × Info)
  read_on rest d (finished status info) = pure (status, d, info)
  read_on rest d (skipped crc name_length info) = do
    (more, d') ← fat_dir_get_next storage d
    rest d' crc name_length info
  read_on rest d (object info) = do
    (more, d') ← fat_dir_get_next storage d
    pure (fstatus_ok, d', info)

  -- The loop of `fat_dir_read`, on fuel. What `fat_dir_get_next` returns is not read.
  unfoldable pub read_dir_from :
      (fuel : ℕ) → Dir → (crc name_length : ℕ) → Info → Cmd (Fs S) (Fstatus × Dir × Info)
  read_dir_from zero d crc name_length info = λ fs. hang
  read_dir_from (suc fuel) d crc name_length info = do
    done ← fat_read storage d.vol d.sector
    if not done then pure (fstatus_error, d, info) else do
      within (d.rw_offset + 31)
      v ← read_volume (d.vol)
      item ← computed (read_item v.buffer d.rw_offset crc name_length info)
      read_on (read_dir_from fuel) d item

  unfoldable pub fat_dir_read : (fuel : ℕ) → Dir → Info → Cmd (Fs S) (Fstatus × Dir × Info)
  fat_dir_read fuel d info = read_dir_from fuel d 0 0 info
