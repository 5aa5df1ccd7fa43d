-- ===== src/Fat/Paths.antt =====
-- kernel/src/disk/fat32.c: paths of the form C:/home/usr/bin/chrome.exe, and opening and closing
-- directories and files. Characters are bytes, not signed; a path lies in the memory `m`.
use operating_system_cortex.Base.{
  ℕ, zero, suc, ◌+◌, ◌-◌, Bool, true, false, ◌==◌, ◌||◌, not, if◌then◌else◌, Option, none, some, u8,
  Run, Cmd, ok, hang, pure, ◌>>=◌, bind,
}
use operating_system_cortex.Dlist.{Ptr, null}
use operating_system_cortex.Bytes.{Bytes}
use operating_system_cortex.Fat.{
  Storage, Volume, Dir, File, Fs, Fstatus, fstatus_ok, fstatus_error, fstatus_no_volume,
  fstatus_path_err, fat_clust_to_sect, read_volume, fat_flush,
}
use operating_system_cortex.Fat.Search.{fat_dir_search}
use operating_system_cortex.Fat.Volumes.{volume_get}

-- The first `/` or the end of the string from `path` on.
unfoldable pub to_slash : (fuel : ℕ) → Bytes → (path : Ptr) → Option Ptr
to_slash zero m path = none
to_slash (suc fuel) m path =
    let rest = to_slash fuel m (path + 1) in
    if (m path == 0) || (m path == 0x2F) then some path else rest

-- A fragment of a path: the name of a file, or a directory's with its size in a byte.
pub data Fragment : Type 0 where
  file_name : Fragment
  dir_name : (frag_size : ℕ) → Fragment

unfoldable pub read_fragment : (fuel : ℕ) → Bytes → (tmp : Ptr) → (frag_size : ℕ) → Option Fragment
read_fragment zero m tmp frag_size = none
read_fragment (suc fuel) m tmp frag_size =
    let rest = read_fragment fuel m (tmp + 1) (u8 (frag_size + 1)) in
    if (m tmp == 0) || (m tmp == 0x2F)
    then some (dir_name frag_size)
    else if m tmp == 0x2E
    then some file_name
    else rest

-- The start of the root directory, as `fat_follow_path` computes it.
unfoldable pub rewind_to_root : (vol : Ptr) → Volume → Dir → Dir
rewind_to_root vol v d = record d {
  vol = vol;
  start_sect = v.root_lba;
  sector = v.root_lba;
  cluster = fat_clust_to_sect v v.root_lba;
  rw_offset = 0;
}

-- The last fragment of a path, read backwards from its last character: the address in front of it
-- and its size in a byte, unless a zero byte comes first.
unfoldable pub last_fragment :
    (fuel : ℕ) → Bytes → (char : Ptr) → (frag_size : ℕ) → Run (Option (Ptr × ℕ))
last_fragment zero m char frag_size = hang
last_fragment (suc fuel) m char frag_size =
    let rest = last_fragment fuel m (char - 1) (u8 (frag_size + 1)) in
    if m char == 0x00 then ok none else if m char == 0x2F then ok (some (char, frag_size)) else rest

unfoldable pub open_file : Dir → File
open_file d = record {
  sector = d.sector;
  cluster = d.cluster;
  rw_offset = 0;
  size = d.size;
  start_sect = d.sector;
  glob_offset = 0;
  vol = d.vol;
}

abbrev pub scanned : {S A : Type 0} → Option A → Cmd (Fs S) A
scanned none fs = hang
scanned (some a) fs = ok (a, fs)

abbrev pub computed : {S A : Type 0} → Run A → Cmd (Fs S) A
computed r fs = bind r (λ a. ok (a, fs))

module _ {S : Type 0} (storage : Storage S) where
  unfoldable pub follow_fragment :
      (search : (name : Ptr) → (size : ℕ) → Dir → Cmd (Fs S) (Bool × Dir))
      → (rest : (path : Ptr) → Dir → Cmd (Fs S) (Fstatus × Dir)) → Fragment
      → (name : Ptr) → Dir
      → Cmd (Fs S) (Fstatus × Dir)
  follow_fragment search rest file_name name d = pure (fstatus_ok, d)
  follow_fragment search rest (dir_name frag_size) name d = do
    (found, d') ← search name frag_size d
    if not found then pure (fstatus_ok, d') else rest name d'

  -- The loop of `fat_follow_path`, on fuel, which bounds its scans too. `return 0` for a directory
  -- that is not found is FSTATUS_OK.
  unfoldable pub follow_from : (fuel : ℕ) → Bytes → (path : Ptr) → Dir → Cmd (Fs S) (Fstatus × Dir)
  follow_from zero m path d = λ fs. hang
  follow_from (suc fuel) m path d = do
    slash ← scanned (to_slash (suc fuel) m path)
    if (m slash == 0) || (m (slash + 1) == 0) then pure (fstatus_ok, d) else do
      fragment ← scanned (read_fragment (suc fuel) m (slash + 1) 0)
      follow_fragment (fat_dir_search storage (suc fuel) m) (follow_from fuel m) fragment
          (slash + 1) d

  unfoldable pub fat_follow_path :
      (fuel : ℕ) → Bytes → (path : Ptr) → Dir → Cmd (Fs S) (Fstatus × Dir)
  fat_follow_path fuel m path d = do
    vol ← volume_get fuel (m path)
    if vol == null then pure (fstatus_no_volume, d) else do
      v ← read_volume vol
      let d₁ = rewind_to_root vol v d
      if not (m (path + 1) == 0x3A) then pure (fstatus_path_err, d₁) else do
        if not (m (path + 2) == 0x2F)
            then pure (fstatus_path_err, d₁)
            else follow_from fuel m (path + 2) d₁

  unfoldable pub fat_dir_open : (fuel : ℕ) → Bytes → (path : Ptr) → Dir → Cmd (Fs S) (Fstatus × Dir)
  fat_dir_open fuel m path d = fat_follow_path fuel m path d

  unfoldable pub fat_dir_close : Dir → Cmd (Fs S) Fstatus
  fat_dir_close d = do
    flushed ← fat_flush storage d.vol
    pure (if flushed then fstatus_ok else fstatus_error)

  unfoldable pub fat_file_close : File → Cmd (Fs S) Fstatus
  fat_file_close f = do
    flushed ← fat_flush storage f.vol
    pure (if flushed then fstatus_ok else fstatus_error)

  unfoldable pub open_fragment :
      (fuel : ℕ) → Bytes → Dir → File → Option (Ptr × ℕ) → Cmd (Fs S) (Fstatus × File)
  open_fragment fuel m d file none = pure (fstatus_path_err, file)
  open_fragment fuel m d file (some (char, frag_size)) = do
    (found, d') ← fat_dir_search storage fuel m (char + 1) frag_size d
    pure (if found then (fstatus_ok, open_file d') else (fstatus_path_err, file))

  -- The local `dir`, whose fields are not set at first, is an argument.
  unfoldable pub fat_file_open :
      (fuel : ℕ)
      → Bytes
      → (path : Ptr) → (length : ℕ) → (dir : Dir) → File
      → Cmd (Fs S) (Fstatus × File)
  fat_file_open fuel m path length dir file = do
    (status, d) ← fat_follow_path fuel m path dir
    let last = path + length - 1
    if not (is_ok status) then pure (status, file) else do
      if m last == 0x00 then pure (fstatus_path_err, file) else do
        fragment ← computed (last_fragment fuel m (if m last == 0x2F then last - 1 else last) 0)
        open_fragment fuel m d file fragment
    where
      is_ok : Fstatus → Bool
      is_ok fstatus_ok = true
      is_ok _ = false
