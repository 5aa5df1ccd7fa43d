-- ===== src/Fat/Cache.antt =====
-- The cached sector of a volume (kernel/src/disk/fat32.c) shows what is on the disk.
use operating_system_cortex.Base.{
  ℕ, ◌<◌, ◌≡◌, ◌≢◌, ◌⊎◌, inl, inr, refl, sym, ap, ◌∙◌, true, ◌==◌, ==_self, ne→==_false, ==→eq,
  Bool-cases, some, Run, ok, bind, Returns, returns,
}
use operating_system_cortex.Dlist.{Ptr, null}
use operating_system_cortex.Fat.{
  Storage, Sector, Disk, disk_sd_card, Volume, Fs, set_volume, read_volume, update_volume,
  on_device, disk_read, fat_flush, fetched, fat_read,
}

-- A volume without its buffer: `at b l` has the buffer `b` of sector `l`.
abbrev pub with_buffer : Volume → Sector → (lba : ℕ) → Volume
with_buffer v b l = record v { buffer = b; buffer_lba = l }

-- What is relied on from the SD card: as long as it holds an image, a sector below its capacity is
-- read from the image.
pub record IsCard {S : Type 0} (storage : Storage S) (image : ℕ → Sector) : Type 1 where
  pub capacity : ℕ
  pub Holds : S → Type 0
  pub reads :
      (s : S) (lba : ℕ)
      → Holds s
      → lba < capacity
      → Returns (λ r s'. (r ≡ some (image lba)) × Holds s') (storage.sd_read lba s)

module _ {S : Type 0} (storage : Storage S) (image : ℕ → Sector) (card : IsCard storage image)
    (vol : Ptr) (geo : Volume) where
  -- The buffer is clean and shows a sector of the image, or is marked with sector 0, which means none.
  abbrev pub Shows : Fs S → Type 0
  Shows fs =
      (b : Sector) × (l : ℕ) × (fs.volumes vol ≡ with_buffer geo b l)
      × ((l ≡ 0) ⊎ (b ≡ image l))
      × (card.Holds) (fs.device)

  -- The sector `lba` is in the buffer.
  abbrev pub Loaded : (lba : ℕ) → Fs S → Type 0
  Loaded lba fs = (fs.volumes vol ≡ with_buffer geo (image lba) lba) × (card.Holds) (fs.device)

  pub Loaded-Shows : (lba : ℕ) (fs : Fs S) → Loaded lba fs → Shows fs
  Loaded-Shows lba fs (e, holds) = (image lba, lba, e, inr refl, holds)

  pub read_volume-ok : (fs : Fs S) → vol ≢ null → read_volume vol fs ≡ ok (fs.volumes vol, fs)
  unfolding read_volume
  read_volume-ok fs ne = rw (ne→==_false vol null ne) refl

  fat_flush-clean :
      (fs : Fs S)
      → vol ≢ null
      → (fs.volumes vol).buffer_dirty ≡ 0
      → fat_flush storage vol fs ≡ ok (true, fs)
  unfolding fat_flush
  fat_flush-clean fs ne clean = rw (read_volume-ok fs ne, clean) refl

  disk_read-sd_read : (d : Disk) (lba : ℕ) → disk_read storage d lba ≡ storage.sd_read lba
  unfolding disk_read
  disk_read-sd_read disk_sd_card lba = refl

  on_device-ok :
      {A : Type 0} (op : S → Run (A × S)) (fs : Fs S) (a : A) (s : S)
      → op fs.device ≡ ok (a, s)
      → on_device op fs ≡ ok (a, record fs { device = s })
  unfolding on_device
  on_device-ok op fs a s e = rw e refl

  fetched-Loaded :
      (lba : ℕ) (fs : Fs S) (b : Sector) (l : ℕ)
      → vol ≢ null
      → fs.volumes vol ≡ with_buffer geo b l
      → card.Holds fs.device
      → Returns
          (λ done fs'. (done ≡ true) × Loaded lba fs')
          (fetched storage vol lba (some (image lba)) fs)
  unfolding fetched update_volume set_volume
  fetched-Loaded lba fs b l ne e holds =
      rw (ne→==_false vol null ne) (returns true _ refl (refl, (rw (==_self vol, e) refl, holds)))

  from_card :
      (lba : ℕ) (fs : Fs S) (b : Sector) (l : ℕ)
      → vol ≢ null
      → fs.volumes vol ≡ with_buffer geo b l
      → Returns (λ r s'. (r ≡ some (image lba)) × (card.Holds) s') (storage.sd_read lba fs.device)
      → Returns
          (λ done fs'. (done ≡ true) × Loaded lba fs')
          (bind (on_device (storage.sd_read lba) fs) (λ (r, fs'). fetched storage vol lba r fs'))
  from_card lba fs b l ne e (returns r s' eq (found, holds)) =
      rw (on_device-ok (storage.sd_read lba) fs r s' eq, found)
        (fetched-Loaded lba (record fs { device = s' }) b l ne e holds)

  -- A sector of the disk but the first is read, without error: the buffer shows it then.
  pub fat_read-Loaded :
      (lba : ℕ) (fs : Fs S)
      → vol ≢ null
      → geo.buffer_dirty ≡ 0
      → lba ≢ 0
      → lba < card.capacity
      → Shows fs
      → Returns (λ done fs'. (done ≡ true) × Loaded lba fs') (fat_read storage vol lba fs)
  unfolding fat_read
  fat_read-Loaded lba fs ne clean some_lba small (b, l, e, fresh, holds) =
      elim (Bool-cases (l == lba)) [
        | inl same ↦
            rw (read_volume-ok fs ne, e, same)
              (returns true fs refl (refl, (e ∙ shown (==→eq l lba same) fresh, holds)))
        | inr other ↦
            rw
              (
                read_volume-ok fs ne,
                e,
                other,
                fat_flush-clean fs ne (ap (λ v. v.buffer_dirty) e ∙ clean),
                disk_read-sd_read geo.disk lba,
              )
              (from_card lba fs b l ne e (card.reads fs.device lba holds small))
      ]
    where
      shown :
          l ≡ lba → (l ≡ 0) ⊎ (b ≡ image l) → with_buffer geo b l ≡ with_buffer geo (image lba) lba
      shown p (inl zero_lba) = absurd (some_lba (sym p ∙ zero_lba))
      shown p (inr q) = rw (q, p) refl
