-- ===== src/Fat/Mount.antt =====
-- kernel/src/disk/fat32.c: the recognition of a FAT32 file system, and mounting and ejecting a disk.
-- A division by 0 gives 0, as the processor's does.
use operating_system_cortex.Base.{
  ℕ, zero, suc, ◌+◌, ◌*◌, ◌/◌, Bool, true, false, ◌==◌, ltb, ◌||◌, not, if◌then◌else◌, Option, none,
  some, List, [], ◌∷◌, map, u32, sub32, Cmd, ok, hang, pure, stop, ◌>>=◌, ◌>>◌,
}
use operating_system_cortex.Dlist.{Ptr, null}
use operating_system_cortex.Bytes.{Bytes, write_byte}
use operating_system_cortex.Mm.{mm_alloc, mm_free}
use operating_system_cortex.Fat.{
  Storage, Sector, Disk, disk_sd_card, Volume, Fs, fat_load16, fat_load32, fat_clust_to_sect,
  read_volume, update_volume, on_device, on_mm, disk_get_status, disk_initialize, disk_read,
}
use operating_system_cortex.Fat.Search.{fat_get_vol_label}
use operating_system_cortex.Fat.Volumes.{fat_volume_add, fat_volume_remove, volume_get_first}

unfoldable pub fat_memcpy : (src : Ptr) → Bytes → (dest : Ptr) → (count : ℕ) → Bytes → Bytes
fat_memcpy src s dest zero m = m
fat_memcpy src s dest (suc count) m =
    fat_memcpy (src + 1) s (dest + 1) count (write_byte m dest (s src))

unfoldable pub fat_memcmp : (src_1 : Ptr) → Bytes → (src_2 : Ptr) → Bytes → (count : ℕ) → Bool
fat_memcmp src_1 s src_2 t zero = true
fat_memcmp src_1 s src_2 t (suc count) =
    let rest = fat_memcmp (src_1 + 1) s (src_2 + 1) t count in
    if s src_1 == t src_2 then rest else false

-- "FAT"
abbrev pub fat_string : Bytes
fat_string zero = 0x46
fat_string (suc zero) = 0x41
fat_string (suc (suc zero)) = 0x54
fat_string _ = 0

-- `root_sectors`, where the sector size 0 makes the divisor -1.
unfoldable pub root_sectors : (root_entries sector_size : ℕ) → ℕ
root_sectors root_entries zero = sub32 1 (root_entries * 32)
root_sectors root_entries (suc n) = (root_entries * 32 + n) / n

-- A field of 16 bits, or the one of 32 bits that stands for it where it is 0.
unfoldable pub short_or_long : (short long : ℕ) → ℕ
short_or_long short long = if short == 0 then long else short

unfoldable pub data_clusters : (bpb : Sector) → ℕ
data_clusters bpb =
    let fat_size = short_or_long (fat_load16 22 bpb) (fat_load32 36 bpb) in
    let tot_sect = short_or_long (fat_load16 19 bpb) (fat_load32 32 bpb) in
    let roots = root_sectors (fat_load16 17 bpb) (fat_load16 11 bpb) in
    sub32 tot_sect (u32 (fat_load16 14 bpb + bpb 16 * fat_size + roots)) / bpb 13

unfoldable pub fat_search : (bpb : Sector) → Bool
fat_search bpb =
    if not (fat_load16 510 bpb == 0xAA55)
    then false
    else if not (fat_memcmp 82 bpb 0 fat_string 3 || fat_memcmp 54 bpb 0 fat_string 3)
    then false
    else not (ltb (data_clusters bpb) 65525)

-- `struct partition`
pub record Partition : Type 0 where
  pub lba : ℕ
  pub size : ℕ
  pub status : ℕ
  pub type : ℕ

unfoldable pub read_partition : (mbr : Sector) → (i : ℕ) → Partition
read_partition mbr i =
    let offset = 446 + i * 16 in
    record {
      lba = fat_load32 (offset + 8) mbr;
      size = fat_load32 (offset + 12) mbr;
      status = mbr offset;
      type = mbr (offset + 4);
    }

abbrev pub read_partitions : (mbr : Sector) → List Partition
read_partitions mbr = map (read_partition mbr) (0 ∷ 1 ∷ 2 ∷ 3 ∷ [])

-- The fields of a new volume, from the first sector of its partition.
unfoldable pub volume_from : Disk → (lba : ℕ) → (bpb : Sector) → Volume → Volume
volume_from disk lba bpb v =
    let fat_lba = u32 (lba + fat_load16 14 bpb) in
    let v₁ = record v {
      sector_size = fat_load16 11 bpb;
      cluster_size = bpb 13;
      total_size = fat_load32 32 bpb;
      fsinfo_lba = u32 (lba + fat_load16 48 bpb);
      fat_lba = fat_lba;
      data_lba = u32 (fat_lba + fat_load32 36 bpb * bpb 16);
    } in
    record v₁ {
      root_lba = fat_clust_to_sect v₁ (fat_load32 44 bpb);
      disk = disk;
      buffer_lba = 0;
      buffer_dirty = 0;
    }

-- `sizeof(struct volume)`
abbrev pub volume_bytes : ℕ
volume_bytes = 828

-- `SRAM`
abbrev pub sram : ℕ
sram = 0

abbrev pub same_disk : Disk → Disk → Bool
same_disk disk_sd_card disk_sd_card = true

module _ {S : Type 0} (storage : Storage S) where
  unfoldable pub mount_volume :
      (fuel : ℕ) → Disk → (lba : ℕ) → (bpb : Sector) → Cmd (Fs S) (Unit {0})
  mount_volume fuel disk lba bpb = do
    vol ← on_mm (mm_alloc fuel volume_bytes sram)
    update_volume vol (volume_from disk lba bpb)
    v ← read_volume vol
    (status, label) ← fat_get_vol_label storage fuel vol v.label
    update_volume vol (λ v. record v { label = label })
    added ← fat_volume_add fuel vol
    pure tt

  unfoldable pub mount_found : (fuel : ℕ) → Disk → (lba : ℕ) → Option Sector → Cmd (Fs S) (Unit {0})
  mount_found fuel disk lba none = stop
  mount_found fuel disk lba (some bpb) =
      if fat_search bpb then mount_volume fuel disk lba bpb else pure tt

  unfoldable pub mount_partitions : (fuel : ℕ) → Disk → List Partition → Cmd (Fs S) (Unit {0})
  mount_partitions fuel disk [] = pure tt
  mount_partitions fuel disk (p ∷ ps) = do
    if p.lba == 0
        then pure tt
        else (do bpb ← on_device (disk_read storage disk p.lba); mount_found fuel disk p.lba bpb)
    mount_partitions fuel disk ps

  unfoldable pub mount_mbr : (fuel : ℕ) → Disk → Option Sector → Cmd (Fs S) Bool
  mount_mbr fuel disk none = stop
  mount_mbr fuel disk (some mbr) =
      if not (fat_load16 510 mbr == 0xAA55)
      then pure false
      else do mount_partitions fuel disk (read_partitions mbr); pure true

  unfoldable pub disk_mount : (fuel : ℕ) → Disk → Cmd (Fs S) Bool
  disk_mount fuel disk = do
    present ← is_present
    if not present then stop else do
      initialized ← on_device (disk_initialize storage disk)
      if not initialized
          then stop
          else do mbr ← on_device (disk_read storage disk 0); mount_mbr fuel disk mbr
    where
      is_present : Cmd (Fs S) Bool
      is_present fs = ok (disk_get_status storage disk fs.device, fs)

  -- The loop of `disk_eject`, on fuel. `vol->next` is read after the volume is freed: its first
  -- bytes are behind the header that `mm_free` writes.
  unfoldable pub eject_from : (fuel : ℕ) → Disk → (vol : Ptr) → Cmd (Fs S) Bool
  eject_from zero disk vol = λ fs. hang
  eject_from (suc fuel) disk vol = if vol == null then pure true else do
    v ← read_volume vol
    removed ← eject_volume (same_disk v.disk disk) v.letter
    if not removed then pure false else eject_from fuel disk v.next
    where
      eject_volume : Bool → (letter : ℕ) → Cmd (Fs S) Bool
      eject_volume false letter = pure true
      eject_volume true letter = do
        removed ← fat_volume_remove (suc fuel) letter
        if not removed then pure false else do on_mm (mm_free (suc fuel) vol); pure true

  unfoldable pub disk_eject : (fuel : ℕ) → Disk → Cmd (Fs S) Bool
  disk_eject fuel disk = do vol ← volume_get_first; eject_from fuel disk vol
