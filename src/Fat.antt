-- ===== src/Fat.antt =====
-- kernel/src/disk/fat32.h and the lowest layer of fat32.c: the loads and stores of little endian
-- values, the sector cache of a volume and the file allocation table; and disk_io.c, which passes
-- the accesses on to the SD card of sd_protocol.c, here an interface.
pub mod Values
pub mod Cache
pub mod Clusters
pub mod Names
pub mod Search
pub mod Volumes
pub mod Paths
pub mod Files
pub mod Mount
pub mod Chains
pub mod Letters
pub mod Grow
pub mod Added
pub mod Reading
pub mod Contents
pub mod Tests
use operating_system_cortex.Base.{
  ℕ, ◌+◌, ◌*◌, ◌/◌, ◌%◌, ◌^◌, Bool, true, false, ◌==◌, ltb, leb, if◌then◌else◌, not, Option, none,
  some, u8, u16, u32, sub32, bit_or, Run, Cmd, ok, panic, fault, hang, pure, ◌>>=◌, ◌>>◌, bind,
  continue,
}
use operating_system_cortex.Dlist.{Ptr, null}
use operating_system_cortex.Bytes.{Bytes, write_byte}
use operating_system_cortex.Mm.{Mm}

-- The bytes of a sector or of a buffer, by their offsets.
abbrev pub Sector : Type 0
Sector = Bytes

-- `enum disk`
pub data Disk : Type 0 where
  disk_sd_card : Disk

-- The functions of sd_protocol.c and sd.c that disk_io.c calls, on the state `S` of card and
-- controller. They move one sector.
pub record Storage (S : Type 0) : Type 0 where
  pub sd_is_connected : S → Bool
  pub sd_protocol_init : Cmd S (Unit {0})
  pub sd_read : (sector : ℕ) → Cmd S (Option Sector)
  pub sd_write : (sector : ℕ) → Sector → Cmd S Bool

-- `fstatus`
pub data Fstatus : Type 0 where
  fstatus_ok fstatus_error fstatus_no_volume fstatus_path_err fstatus_eof : Fstatus

-- `struct volume`, less `lfn` and `lfn_size`, which nothing uses
pub record Volume : Type 0 where
  pub next : Ptr
  pub label : Bytes
  pub letter : ℕ
  pub sector_size : ℕ
  pub cluster_size : ℕ
  pub total_size : ℕ
  pub fat_lba : ℕ
  pub fsinfo_lba : ℕ
  pub data_lba : ℕ
  pub root_lba : ℕ
  pub buffer : Sector
  pub buffer_lba : ℕ
  pub disk : Disk
  pub buffer_dirty : ℕ

-- `struct dir`
pub record Dir : Type 0 where
  pub sector : ℕ
  pub cluster : ℕ
  pub rw_offset : ℕ
  pub start_sect : ℕ
  pub size : ℕ
  pub vol : Ptr

-- `struct file`
pub record File : Type 0 where
  pub sector : ℕ
  pub cluster : ℕ
  pub rw_offset : ℕ
  pub size : ℕ
  pub start_sect : ℕ
  pub glob_offset : ℕ
  pub vol : Ptr

-- The globals of fat32.c but `mount_buffer`, with the memory of the volumes, the memory manager
-- and the disk.
pub record Fs (S : Type 0) : Type 0 where
  pub volume_base : Ptr
  pub volume_bitmask : ℕ
  pub volumes : Ptr → Volume
  pub mm : Mm
  pub device : S

unfoldable pub fat_store32 : (dest : Ptr) → (value : ℕ) → Bytes → Bytes
fat_store32 dest value m =
    let m₁ = write_byte m dest (u8 value) in
    let m₂ = write_byte m₁ (dest + 1) (u8 (value / 2 ^ 8)) in
    let m₃ = write_byte m₂ (dest + 2) (u8 (value / 2 ^ 8 / 2 ^ 8)) in
    write_byte m₃ (dest + 3) (u8 (value / 2 ^ 8 / 2 ^ 8 / 2 ^ 8))

unfoldable pub fat_store16 : (dest : Ptr) → (value : ℕ) → Bytes → Bytes
fat_store16 dest value m = write_byte (write_byte m dest (u8 value)) (dest + 1) (u8 (value / 2 ^ 8))

unfoldable pub fat_load32 : (src : Ptr) → Bytes → ℕ
fat_load32 src m =
    let value = bit_or (bit_or 0 (m src)) (m (src + 1) * 2 ^ 8) in
    bit_or (bit_or value (m (src + 2) * 2 ^ 16)) (m (src + 3) * 2 ^ 24)

unfoldable pub fat_load16 : (src : Ptr) → Bytes → ℕ
fat_load16 src m = bit_or (bit_or 0 (m src)) (m (src + 1) * 2 ^ 8)

unfoldable pub fat_sect_to_clust : Volume → (sect : ℕ) → ℕ
fat_sect_to_clust v sect = u32 (sub32 sect v.data_lba / v.cluster_size + 2)

unfoldable pub fat_clust_to_sect : Volume → (clust : ℕ) → ℕ
fat_clust_to_sect v clust = u32 (sub32 clust 2 * v.cluster_size + v.data_lba)

-- The end of a chain: the test on `eoc_value`.
unfoldable pub is_eoc : (entry : ℕ) → Bool
is_eoc entry = leb 0xFFFFFF8 (entry % 2 ^ 28)

unfoldable pub set_volume : {S : Type 0} → Ptr → Volume → Fs S → Fs S
set_volume p v fs = record fs { volumes = λ a. if a == p then v else fs.volumes a }

-- `*vol`
unfoldable pub read_volume : {S : Type 0} → (vol : Ptr) → Cmd (Fs S) Volume
read_volume vol fs = if vol == null then fault else ok (fs.volumes vol, fs)

-- An assignment to fields of `*vol`.
unfoldable pub update_volume :
    {S : Type 0} → (vol : Ptr) → (Volume → Volume) → Cmd (Fs S) (Unit {0})
update_volume vol f fs =
    if vol == null then fault else ok (tt, set_volume vol (f (fs.volumes vol)) fs)

unfoldable pub on_device : {S A : Type 0} → Cmd S A → Cmd (Fs S) A
on_device op fs = bind (op fs.device) (λ (a, s). ok (a, record fs { device = s }))

unfoldable pub on_mm : {S A : Type 0} → Cmd Mm A → Cmd (Fs S) A
on_mm op fs = bind (op fs.mm) (λ (a, s). ok (a, record fs { mm = s }))

-- The buffer of a volume has 512 bytes: an access behind them is a fault.
unfoldable pub within : {S : Type 0} → (last : ℕ) → Cmd (Fs S) (Unit {0})
within last fs = if ltb last 512 then ok (tt, fs) else fault

module _ {S : Type 0} (storage : Storage S) where
  unfoldable pub disk_get_status : Disk → S → Bool
  disk_get_status disk_sd_card = storage.sd_is_connected

  unfoldable pub disk_initialize : Disk → Cmd S Bool
  disk_initialize disk_sd_card = do storage.sd_protocol_init; pure true

  unfoldable pub disk_read : Disk → (lba : ℕ) → Cmd S (Option Sector)
  disk_read disk_sd_card lba = storage.sd_read lba

  unfoldable pub disk_write : Disk → Sector → (lba : ℕ) → Cmd S Bool
  disk_write disk_sd_card buffer lba = storage.sd_write lba buffer

  unfoldable pub fat_flush : (vol : Ptr) → Cmd (Fs S) Bool
  fat_flush vol = do
    v ← read_volume vol
    if v.buffer_dirty == 0 then pure true else do
      written ← on_device (disk_write v.disk v.buffer v.buffer_lba)
      if not written
          then pure false
          else do update_volume vol (λ v. record v { buffer_dirty = 0 }); pure true

  -- What a read leaves in the buffer when it fails is not modelled.
  unfoldable pub fetched : (vol : Ptr) → (lba : ℕ) → Option Sector → Cmd (Fs S) Bool
  fetched vol lba none = pure false
  fetched vol lba (some sector) = do
    update_volume vol (λ v. record v { buffer = sector; buffer_lba = lba })
    pure true

  unfoldable pub fat_read : (vol : Ptr) → (lba : ℕ) → Cmd (Fs S) Bool
  fat_read vol lba = do
    v ← read_volume vol
    if v.buffer_lba == lba then pure true else do
      flushed ← fat_flush vol
      if not flushed
          then pure false
          else do sector ← on_device (disk_read v.disk lba); fetched vol lba sector

  unfoldable pub fat_table_get : (vol : Ptr) → (cluster : ℕ) → Cmd (Fs S) (Option ℕ)
  fat_table_get vol cluster = do
    v ← read_volume vol
    done ← fat_read vol (u32 (v.fat_lba + cluster / 128))
    if not done
        then pure none
        else do v ← read_volume vol; pure (some (fat_load32 (cluster % 128 * 4) v.buffer))

  unfoldable pub fat_table_set : (vol : Ptr) → (cluster fat_entry : ℕ) → Cmd (Fs S) Bool
  fat_table_set vol cluster fat_entry = do
    v ← read_volume vol
    done ← fat_read vol (u32 (v.fat_lba + cluster / 128))
    if not done then pure false else do
      update_volume vol (λ v. record v {
        buffer = fat_store32 (4 * (cluster % 128)) fat_entry v.buffer;
        buffer_dirty = 1;
      })
      fat_flush vol
      pure true
