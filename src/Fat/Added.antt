-- ===== src/Fat/Added.antt =====
-- `fat_volume_add` of kernel/src/disk/fat32.c as a whole.
use operating_system_cortex.Base.{
  ℕ, zero, suc, ◌+◌, ◌<◌, ◌≡◌, ◌≢◌, refl, sym, ap, ◌∙◌, false≢true, Bool, true, false, ◌==◌,
  ==_self, ne→==_false, ==→eq, Bool-cases, inl, inr, List, [], ◌∷◌, ◌++◌, length, last_or, mem,
  mem-append, Distinct, some, arith, u8, test_bit, set_bit, Returns, returns, Cmd, ok, pure, ◌>>=◌,
  ◌>>◌,
}
use operating_system_cortex.Dlist.{Ptr, null}
use operating_system_cortex.Fat.{Volume, Fs, set_volume, update_volume}
use operating_system_cortex.Fat.Volumes.{
  free_bit, link_last, set_letter, fat_volume_add, volume_get_first, set_volume_base,
  set_volume_bitmask, get_volume_bitmask,
}
use operating_system_cortex.Fat.Letters.{Linked, update_volume-ok, is_listed-mem, link_last-ok}
use operating_system_cortex.Fat.Grow.{
  Lettered, free_bit-clear, Lettered-grown, Linked-grown, mem-last_or,
}

-- The volumes are these, without repetition, each with a letter of its own.
abbrev pub HasVolumes : {S : Type 0} → List Ptr → Fs S → Type 0
HasVolumes vs fs =
    Linked fs.volumes fs.volume_base vs × Distinct vs × Lettered fs.volumes fs.volume_bitmask vs

-- The end of `fat_volume_add`, once the volume is linked.
abbrev settle : {S : Type 0} → (vol : Ptr) → Cmd (Fs S) Bool
settle vol = do
  update_volume vol (λ v. record v { next = null })
  bitmask ← get_volume_bitmask
  set_letter vol (free_bit 32 0 bitmask)
  pure true

abbrev settled : {S : Type 0} → (vol : Ptr) → (j : ℕ) → Fs S → Fs S
settled vol j fs =
    let fs₁ = set_volume vol (record (fs.volumes vol) { next = null }) fs in
    let fs₂ = record fs₁ { volume_bitmask = set_bit fs.volume_bitmask j } in
    set_volume vol (record (fs₁.volumes vol) { letter = u8 (0x43 + j) }) fs₂

module _ {S : Type 0} (vol : Ptr) (some_vol : vol ≢ null) (j : ℕ) (small : j < 32) where
  settle-ok :
      (fs : Fs S)
      → free_bit 32 0 fs.volume_bitmask ≡ some j
      → settle vol fs ≡ ok (true, settled vol j fs)
  unfolding get_volume_bitmask set_volume_bitmask set_letter set_volume
  settle-ok fs e =
      rw
        (
          update_volume-ok vol (λ v. record v { next = null }) fs some_vol,
          e,
          update_volume-ok vol (λ v. record v { letter = u8 (0x43 + j) })
              (record (set_volume vol (record (fs.volumes vol) { next = null }) fs) {
                volume_bitmask = set_bit fs.volume_bitmask j;
              })
              some_vol,
        )
        refl

  settled_other : (fs : Fs S) (x : Ptr) → x ≢ vol → (settled vol j fs).volumes x ≡ fs.volumes x
  unfolding set_volume
  settled_other fs x ne = rw (ne→==_false x vol ne) refl

  settled_letter : (fs : Fs S) → ((settled vol j fs).volumes vol).letter ≡ 0x43 + j
  unfolding set_volume
  settled_letter fs = rw (==_self vol) (omega (arith, small))

  settled_next : (fs : Fs S) → ((settled vol j fs).volumes vol).next ≡ null
  unfolding set_volume
  settled_next fs = rw (==_self vol) refl

Distinct-append :
    (us : List Ptr) (a : Ptr) → Distinct us → mem a us ≡ false → Distinct (us ++ a ∷ [])
Distinct-append [] a d out = (refl, tt)
Distinct-append (b ∷ us) a (once, d) out = (
  rw (mem-append b us (a ∷ [])) (ground (arith, once, out)),
  Distinct-append us a d (ground (arith, out)),
)

set_volume_letter :
    {S : Type 0} (p vol x : Ptr) (fs : Fs S)
    → ((set_volume p (record (fs.volumes p) { next = vol }) fs).volumes x).letter
      ≡ (fs.volumes x).letter
unfolding set_volume
set_volume_letter p vol x fs = elim (Bool-cases (x == p)) [
  | inl e ↦ rw e (ap (λ q. (fs.volumes q).letter) (sym (==→eq x p e)))
  | inr e ↦ rw e refl
]

set_volume_next :
    {S : Type 0} (p vol x : Ptr) (fs : Fs S)
    → x ≢ p
    → ((set_volume p (record (fs.volumes p) { next = vol }) fs).volumes x).next
      ≡ (fs.volumes x).next
unfolding set_volume
set_volume_next p vol x fs ne = rw (ne→==_false x p ne) refl

set_volume_last :
    {S : Type 0} (p : Ptr) (v : Volume) (fs : Fs S) → (set_volume p v fs).volumes p ≡ v
unfolding set_volume
set_volume_last p v fs = rw (==_self p) refl

module _ {S : Type 0} (vol : Ptr) (some_vol : vol ≢ null) (j : ℕ) (small : j < 32) where
  grown :
      (fs : Fs S) (a : Ptr) (us : List Ptr)
      → HasVolumes (a ∷ us) fs
      → mem vol (a ∷ us) ≡ false
      → test_bit fs.volume_bitmask j ≡ false
      → HasVolumes (a ∷ us ++ vol ∷ []) (
          settled vol j
            (set_volume (last_or a us) (record (fs.volumes (last_or a us)) { next = vol }) fs))
  unfolding set_volume
  grown fs a us (linked, distinct, lettered) out clear = (
    Linked-grown fs.volumes t' vol some_vol (settled_next vol some_vol j small fs₁) fs.volume_base a
        us linked distinct
        (λ x h ne.
          ap (λ v. v.next) (settled_other vol some_vol j small fs₁ x (inside x h))
          ∙ set_volume_next last vol x fs ne)
        (ap (λ v. v.next)
          (settled_other vol some_vol j small fs₁ last (inside last (mem-last_or a us))
            ∙ set_volume_last last _ fs)),
    Distinct-append (a ∷ us) vol distinct out,
    Lettered-grown fs.volumes t' vol fs.volume_bitmask j
        (λ x ne.
          ap (λ v. v.letter) (settled_other vol some_vol j small fs₁ x ne)
          ∙ set_volume_letter last vol x fs)
        (settled_letter vol some_vol j small fs₁) clear small (a ∷ us) out lettered,
  )
    where
      last : Ptr
      last = last_or a us

      fs₁ : Fs S
      fs₁ = set_volume last (record (fs.volumes last) { next = vol }) fs

      t' : Ptr → Volume
      t' = (settled vol j fs₁).volumes

      inside : (x : Ptr) → mem x (a ∷ us) ≡ true → x ≢ vol
      inside x h q = false≢true (sym out ∙ ap (λ y. mem y (a ∷ us)) (sym q) ∙ h)

  first :
      (fs : Fs S)
      → Lettered fs.volumes fs.volume_bitmask []
      → test_bit fs.volume_bitmask j ≡ false
      → HasVolumes (vol ∷ []) (settled vol j (record fs { volume_base = vol }))
  unfolding set_volume
  first fs lettered clear = (
    (refl, some_vol, settled_next vol some_vol j small (record fs { volume_base = vol })),
    (refl, tt),
    Lettered-grown fs.volumes (settled vol j (record fs { volume_base = vol })).volumes vol
        fs.volume_bitmask j
        (λ x ne.
          ap (λ v. v.letter)
            (settled_other vol some_vol j small (record fs { volume_base = vol }) x ne))
        (settled_letter vol some_vol j small (record fs { volume_base = vol })) clear small [] refl
        tt,
  )

  add_first :
      (fuel : ℕ) (fs : Fs S)
      → fs.volume_base ≡ null
      → free_bit 32 0 fs.volume_bitmask ≡ some j
      → test_bit fs.volume_bitmask j ≡ false
      → Returns
          (λ added fs'. (added ≡ true) × HasVolumes (vol ∷ []) fs')
          (fat_volume_add (suc fuel) vol fs)
  unfolding fat_volume_add volume_get_first set_volume_base
  add_first fuel fs empty e clear =
      rw
        (
          is_listed-mem (suc fuel) vol fs.volume_base fs [] empty (omega arith) refl,
          is_null,
          settle-ok vol some_vol j small (record fs { volume_base = vol }) e,
        )
        (returns true _ refl (refl, first fs tt clear))
    where
      is_null : (fs.volume_base == null) ≡ true
      is_null = ap (λ p. p == null) empty

  add_last :
      (fuel : ℕ) (fs : Fs S) (a : Ptr) (us : List Ptr)
      → HasVolumes (a ∷ us) fs
      → mem vol (a ∷ us) ≡ false
      → length (a ∷ us) < fuel
      → free_bit 32 0 fs.volume_bitmask ≡ some j
      → test_bit fs.volume_bitmask j ≡ false
      → Returns
          (λ added fs'. (added ≡ true) × HasVolumes (a ∷ us ++ vol ∷ []) fs')
          (fat_volume_add fuel vol fs)
  unfolding fat_volume_add volume_get_first set_volume
  add_last fuel fs a us has out h e clear =
      rw
        (
          is_listed-mem fuel vol fs.volume_base fs (a ∷ us) has.0 h out,
          not_null,
          linked,
          settle-ok vol some_vol j small
              (set_volume (last_or a us) (record (fs.volumes (last_or a us)) { next = vol }) fs) e,
        )
        (returns true _ refl (refl, grown fs a us has out clear))
    where
      not_null : (fs.volume_base == null) ≡ false
      not_null = ap (λ p. p == null) has.0.0 ∙ ne→==_false a null has.0.1

      linked :
          link_last fuel vol fs.volume_base fs
          ≡ ok
              (tt, set_volume (last_or a us) (record (fs.volumes (last_or a us)) { next = vol }) fs)
      linked =
          ap (λ p. link_last fuel vol p fs) has.0.0
          ∙ link_last-ok fuel vol a fs us (refl, has.0.1, has.0.2) (omega (arith, h))

-- Adding a volume that is not in the list, while one of the 32 letters is free, puts it at the end
-- of the list, and every volume has a letter of its own again; fuel above the number of volumes is
-- enough.
pub fat_volume_add-HasVolumes :
    {S : Type 0} (fuel : ℕ) (vol : Ptr) (k : ℕ) (fs : Fs S) (vs : List Ptr)
    → HasVolumes vs fs
    → mem vol vs ≡ false
    → vol ≢ null
    → k < 32
    → test_bit fs.volume_bitmask k ≡ false
    → length vs < fuel
    → Returns
        (λ added fs'. (added ≡ true) × HasVolumes (vs ++ vol ∷ []) fs')
        (fat_volume_add fuel vol fs)
fat_volume_add-HasVolumes zero vol k fs vs has out ne small clear h = absurd (omega arith)
fat_volume_add-HasVolumes (suc fuel) vol k fs [] has out ne small clear h =
    let (j, e, c, h') = free_bit-clear 32 0 fs.volume_bitmask k (omega arith) (omega arith) clear in
    add_first vol ne j h' fuel fs has.0 e c
fat_volume_add-HasVolumes (suc fuel) vol k fs (a ∷ us) has out ne small clear h =
    let (j, e, c, h') = free_bit-clear 32 0 fs.volume_bitmask k (omega arith) (omega arith) clear in
    add_last vol ne j h' (suc fuel) fs a us has out h e c
