-- ===== src/Fat/Reading.antt =====
-- `fat_file_read` of kernel/src/disk/fat32.c: the bytes that it reads are those of the file's sectors.
use operating_system_cortex.Base.{
  ℕ, zero, suc, ◌+◌, ◌-◌, ◌/◌, ◌%◌, ◌^◌, ◌<◌, ◌≤◌, ◌≡◌, ◌≢◌, ◌⊎◌, inl, inr, refl, ap, true, false,
  some, arith, ltb, leb, lt→ltb, Bool-cases, List, [], ◌∷◌, get_or, u32, Cmd, ok, Returns, returns,
  bind-Returns,
}
use operating_system_cortex.Dlist.{Ptr, null}
use operating_system_cortex.Fat.{
  Storage, Sector, Volume, File, Fs, fstatus_ok, fat_clust_to_sect, is_eoc, fat_table_get, fat_read,
  read_volume, within,
}
use operating_system_cortex.Fat.Cache.{
  IsCard, Shows, Loaded, with_buffer, Loaded-Shows, read_volume-ok, fat_read-Loaded,
}
use operating_system_cortex.Fat.Clusters.{past_cluster, fat_file_addr_resolve, file_next_cluster}
use operating_system_cortex.Fat.Chains.{IsMounted, InTable, entry_of, fat_table_get-entry_of}
use operating_system_cortex.Fat.Files.{Read, advance, locate, read_next}

-- The `n` bytes of a sequence from the one at `k` on.
abbrev pub span : (ℕ → ℕ) → (k n : ℕ) → List ℕ
span byte k zero = []
span byte k (suc n) = byte k ∷ span byte (k + 1) n

-- The bytes of a list of sectors of 512 bytes.
abbrev pub byte_of : (ℕ → Sector) → List ℕ → ℕ → ℕ
byte_of image sectors k = image (get_or sectors (k / 512) 0) (k % 512)

pub span-byte_of :
    (image : ℕ → Sector) (s : ℕ) (l : List ℕ) (k n : ℕ)
    → span (byte_of image (s ∷ l)) (512 + k) n ≡ span (byte_of image l) k n
span-byte_of image s l k zero = refl
span-byte_of image s l k (suc n) =
    rw (quotient, remainder, shift)
      (ap (λ rest. image (get_or l (k / 512) 0) (k % 512) ∷ rest)
        (span-byte_of image s l (k + 1) n))
  where
    quotient : (512 + k) / 512 ≡ suc (k / 512)
    quotient = omega arith

    remainder : (512 + k) % 512 ≡ k % 512
    remainder = omega arith

    shift : 512 + k + 1 ≡ 512 + (k + 1)
    shift = omega arith

module _ {S : Type 0} (storage : Storage S) (image : ℕ → Sector) (card : IsCard storage image)
    (vol : Ptr) (geo : Volume) where
  abbrev pub OnCard : (sector : ℕ) → Type 0
  OnCard s = (s ≢ 0) × (s < card.capacity)

  -- Behind sector `s` of cluster `c` comes sector `s'` of `c'`, the same cluster or the next of the chain.
  abbrev pub Next : (c s c' s' : ℕ) → Type 0
  Next c s c' s' =
      ((past_cluster geo c (u32 (s + 1)) ≡ false) × (c' ≡ c) × (s' ≡ u32 (s + 1)))
      ⊎ ((past_cluster geo c (u32 (s + 1)) ≡ true)
          × InTable storage image card vol geo c
          × (is_eoc (entry_of storage image card vol geo c) ≡ false)
          × (c' ≡ entry_of storage image card vol geo c)
          × (s' ≡ fat_clust_to_sect geo c'))

  abbrev pub Follows : (c s : ℕ) → List ℕ → Type 0
  Follows c s [] = Unit {0}
  Follows c s (s' ∷ l) = (c' : ℕ) × Next c s c' s' × OnCard s' × Follows c' s' l

  -- The `n` bytes from `k` on were read, and the file is behind them.
  abbrev pub HasRead : (n : ℕ) → File → (ℕ → ℕ) → (k : ℕ) → Read → Fs S → Type 0
  HasRead n f byte k r fs =
      (r.outcome ≡ fstatus_ok)
      × (r.bytes ≡ span byte k n)
      × (r.file.glob_offset ≡ f.glob_offset + n)
      × Shows storage image card vol geo fs

  within-ok : (k : ℕ) (fs : Fs S) → k < 512 → within k fs ≡ ok (tt, fs)
  unfolding within
  within-ok k fs h = rw (lt→ltb k 512 h) refl

  read_file-ok :
      (f : File) (fs : Fs S)
      → vol ≢ null
      → f.vol ≡ vol
      → read_volume f.vol fs ≡ ok (fs.volumes vol, fs)
  read_file-ok f fs ne same = rw same (read_volume-ok storage image card vol geo fs ne)

  pub read_next-HasRead :
      (rest : File → Cmd (Fs S) Read) (n : ℕ) (f : File) (l : List ℕ) (fs : Fs S)
      → vol ≢ null
      → f.vol ≡ vol
      → f.rw_offset < 512
      → Loaded storage image card vol geo f.sector fs
      → f.glob_offset < f.size
      → f.size < 2 ^ 32
      → (f.size ≤ f.glob_offset + 1 → n ≡ 0)
      → (f.glob_offset + 1 < f.size
          → Returns
              (HasRead n (advance f) (byte_of image (f.sector ∷ l)) (advance f).rw_offset)
              (rest (advance f) fs))
      → Returns
          (HasRead (suc n) f (byte_of image (f.sector ∷ l)) f.rw_offset)
          (read_next storage rest true f fs)
  unfolding read_next
  read_next-HasRead rest n f l fs ne same inside (e, holds) more small last next =
      rw (within-ok f.rw_offset fs inside, read_file-ok f fs ne same, e)
        (elim (Bool-cases (leb f.size (u32 (f.glob_offset + 1)))) [
          | inl end ↦ rw end (
              returns _ fs refl (
                refl,
                rw (ends end, first_byte) refl,
                rw (ends end) (omega (arith, more, small)),
                Loaded-Shows storage image card vol geo f.sector fs (e, holds),
              ))
          | inr go ↦ rw go (
              bind-Returns (next (goes go)) (λ r fs' (done, read, at, shows).
                returns _ fs' refl
                  (done, rw (first_byte, read, plain) refl, omega (arith, at, more, small), shows)))
        ])
    where
      ends : leb f.size (u32 (f.glob_offset + 1)) ≡ true → n ≡ 0
      ends end = last (ground (arith, end))

      goes : leb f.size (u32 (f.glob_offset + 1)) ≡ false → f.glob_offset + 1 < f.size
      goes go = ground (arith, go)

      plain : u32 (f.rw_offset + 1) ≡ f.rw_offset + 1
      plain = omega (arith, inside)

      first_byte : byte_of image (f.sector ∷ l) f.rw_offset ≡ image f.sector f.rw_offset
      first_byte = rw (quotient, remainder) refl
        where
          quotient : f.rw_offset / 512 ≡ 0
          quotient = omega arith

          remainder : f.rw_offset % 512 ≡ f.rw_offset
          remainder = omega arith

  clust_to_sect_buffer :
      (b : Sector) (l c : ℕ) → fat_clust_to_sect (with_buffer geo b l) c ≡ fat_clust_to_sect geo c
  unfolding fat_clust_to_sect
  clust_to_sect_buffer b l c = refl

  past_cluster_buffer :
      (b : Sector) (l c s : ℕ) → past_cluster (with_buffer geo b l) c s ≡ past_cluster geo c s
  unfolding past_cluster
  past_cluster_buffer b l c s = rw (clust_to_sect_buffer b l c) refl

  -- The file moved on to the first byte of a sector.
  abbrev pub moved : File → (c s : ℕ) → File
  moved f c s = record f { cluster = c; sector = s; rw_offset = 0 }

  below : (k m : ℕ) → m ≡ 512 → k ≡ 512 → ltb k m ≡ false
  below k m p q = ground (arith, p, q)

  start : {k m : ℕ} → m ≡ 512 → k ≡ 512 → k - m ≡ 0
  start p q = omega (arith, p, q)

  fat_file_addr_resolve-moved :
      (f : File) (fs : Fs S) (c' s' : ℕ)
      → IsMounted storage image card vol geo
      → geo.sector_size ≡ 512
      → f.vol ≡ vol
      → f.rw_offset ≡ 512
      → Next f.cluster f.sector c' s'
      → Shows storage image card vol geo fs
      → Returns
          (λ r fs'. (r ≡ (true, moved f c' s')) × Shows storage image card vol geo fs')
          (fat_file_addr_resolve storage f fs)
  unfolding fat_file_addr_resolve file_next_cluster
  fat_file_addr_resolve-moved f fs c' s' mounted size same full (inl (stay, ec, es))
        (b, l, e, fresh, holds) =
      rw
        (
          read_file-ok f fs mounted.0 same,
          e,
          below f.rw_offset geo.sector_size size full,
          past_cluster_buffer b l f.cluster (u32 (f.sector + 1)),
          stay,
        )
        (returns _ fs refl (rw (start size full, ec, es) refl, (b, l, e, fresh, holds)))
  fat_file_addr_resolve-moved f fs c' s' mounted size same full (inr (past, inside, more, ec, es))
        (b, l, e, fresh, holds) =
      rw
        (
          read_file-ok f fs mounted.0 same,
          e,
          below f.rw_offset geo.sector_size size full,
          past_cluster_buffer b l f.cluster (u32 (f.sector + 1)),
          past,
        )
        (bind-Returns looked_up (λ r fs' (found, shows).
          rw (found, more, clust_to_sect_buffer b l (entry_of storage image card vol geo f.cluster))
            (returns _ fs' refl (rw (start size full, es, ec) refl, shows))))
    where
      looked_up :
          Returns
            (λ r fs'.
              (r ≡ some (entry_of storage image card vol geo f.cluster))
              × Shows storage image card vol geo fs')
            (fat_table_get storage f.vol f.cluster fs)
      looked_up = rw same (
          fat_table_get-entry_of storage image card vol geo f.cluster fs mounted inside
            (b, l, e, fresh, holds))

  pub locate-moved :
      (f : File) (fs : Fs S) (c' s' : ℕ)
      → IsMounted storage image card vol geo
      → geo.sector_size ≡ 512
      → f.vol ≡ vol
      → f.rw_offset ≡ 512
      → Next f.cluster f.sector c' s'
      → OnCard s'
      → Shows storage image card vol geo fs
      → Returns
          (λ r fs'. (r ≡ (true, moved f c' s')) × Loaded storage image card vol geo s' fs')
          (locate storage 512 f fs)
  unfolding locate
  locate-moved f fs c' s' mounted size same full next on shows =
      rw (below f.rw_offset 512 refl full) (
        bind-Returns (fat_file_addr_resolve-moved f fs c' s' mounted size same full next shows)
          (λ r fs' (e, shows'). rw e (
            bind-Returns (fetch fs' shows')
              (λ done fs₂ (d, loaded). rw d (returns _ fs₂ refl (refl, loaded))))))
    where
      fetch :
          (fs' : Fs S)
          → Shows storage image card vol geo fs'
          → Returns
              (λ done fs₂. (done ≡ true) × Loaded storage image card vol geo s' fs₂)
              (fat_read storage f.vol s' fs')
      fetch fs' shows' =
          rw same
            (fat_read-Loaded storage image card vol geo s' fs' mounted.0 mounted.1 on.0 on.1 shows')
