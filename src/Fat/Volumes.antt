-- ===== src/Fat/Volumes.antt =====
-- kernel/src/disk/fat32.c: the list of the volumes and their letters.
use operating_system_cortex.Base.{
  ℕ, zero, suc, ◌+◌, ◌-◌, Bool, true, false, ◌==◌, not, if◌then◌else◌, Option, none, some, u8,
  test_bit, set_bit, clear_bit, Cmd, ok, hang, pure, ◌>>=◌, ◌>>◌,
}
use operating_system_cortex.Dlist.{Ptr, null}
use operating_system_cortex.Fat.{Fs, read_volume, update_volume}

-- The first clear bit from `i` on, of `count` bits.
unfoldable pub free_bit : (count i bitmask : ℕ) → Option ℕ
free_bit zero i bitmask = none
free_bit (suc count) i bitmask =
    let rest = free_bit count (i + 1) bitmask in if test_bit bitmask i then rest else some i

module _ {S : Type 0} where
  unfoldable pub volume_get_first : Cmd (Fs S) Ptr
  volume_get_first fs = ok (fs.volume_base, fs)

  unfoldable pub set_volume_base : Ptr → Cmd (Fs S) (Unit {0})
  set_volume_base p fs = ok (tt, record fs { volume_base = p })

  -- Is the volume in the list from `tmp` on?
  unfoldable pub is_listed : (fuel : ℕ) → (vol tmp : Ptr) → Cmd (Fs S) Bool
  is_listed zero vol tmp = λ fs. hang
  is_listed (suc fuel) vol tmp =
      if tmp == null
      then pure false
      else do if tmp == vol then pure true else do v ← read_volume tmp; is_listed fuel vol v.next

  -- The volume goes behind the last one from `vol_it` on.
  unfoldable pub link_last : (fuel : ℕ) → (vol vol_it : Ptr) → Cmd (Fs S) (Unit {0})
  link_last zero vol vol_it = λ fs. hang
  link_last (suc fuel) vol vol_it = do
    v ← read_volume vol_it
    if not (v.next == null)
        then link_last fuel vol v.next
        else update_volume vol_it (λ v. record v { next = vol })

  unfoldable pub set_volume_bitmask : (ℕ → ℕ) → Cmd (Fs S) (Unit {0})
  set_volume_bitmask f fs = ok (tt, record fs { volume_bitmask = f fs.volume_bitmask })

  unfoldable pub get_volume_bitmask : Cmd (Fs S) ℕ
  get_volume_bitmask fs = ok (fs.volume_bitmask, fs)

  -- The letters begin with C.
  unfoldable pub set_letter : (vol : Ptr) → Option ℕ → Cmd (Fs S) (Unit {0})
  set_letter vol none = pure tt
  set_letter vol (some i) = do
    set_volume_bitmask (λ m. set_bit m i)
    update_volume vol (λ v. record v { letter = u8 (0x43 + i) })

  unfoldable pub fat_volume_add : (fuel : ℕ) → (vol : Ptr) → Cmd (Fs S) Bool
  fat_volume_add fuel vol = do
    base ← volume_get_first
    listed ← is_listed fuel vol base
    if listed then pure false else do
      if base == null then set_volume_base vol else link_last fuel vol base
      update_volume vol (λ v. record v { next = null })
      bitmask ← get_volume_bitmask
      set_letter vol (free_bit 32 0 bitmask)
      pure true

  -- The bit of a letter; the difference from C is a byte.
  unfoldable pub free_letter : (letter : ℕ) → Cmd (Fs S) Bool
  free_letter letter = do
    set_volume_bitmask (λ m. clear_bit m (u8 (letter + (256 - 0x43))))
    pure true

  -- The loop over the volumes behind the first.
  unfoldable pub remove_behind : (fuel : ℕ) → (letter : ℕ) → (prev : Ptr) → Cmd (Fs S) Bool
  remove_behind zero letter prev = λ fs. hang
  remove_behind (suc fuel) letter prev = do
    p ← read_volume prev
    if p.next == null then pure false else do
      curr ← read_volume (p.next)
      if not (curr.letter == letter)
          then remove_behind fuel letter p.next
          else do update_volume prev (λ v. record v { next = curr.next }); free_letter curr.letter

  unfoldable pub fat_volume_remove : (fuel : ℕ) → (letter : ℕ) → Cmd (Fs S) Bool
  fat_volume_remove fuel letter = do
    base ← volume_get_first
    if base == null then pure false else do
      curr ← read_volume base
      if not (curr.letter == letter)
          then remove_behind fuel letter base
          else do set_volume_base (curr.next); free_letter curr.letter

  unfoldable pub get_from : (fuel : ℕ) → (letter : ℕ) → (vol : Ptr) → Cmd (Fs S) Ptr
  get_from zero letter vol = λ fs. hang
  get_from (suc fuel) letter vol = if vol == null then pure null else do
    v ← read_volume vol
    if v.letter == letter then pure vol else get_from fuel letter v.next

  unfoldable pub volume_get : (fuel : ℕ) → (letter : ℕ) → Cmd (Fs S) Ptr
  volume_get fuel letter = do base ← volume_get_first; get_from fuel letter base
