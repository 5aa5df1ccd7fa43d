-- ===== src/Fat/Letters.antt =====
-- The list of the volumes in kernel/src/disk/fat32.c, as a list of addresses, and their letters.
use operating_system_cortex.Base.{
  ℕ, zero, suc, ◌<◌, ◌≡◌, ◌≢◌, inl, inr, refl, sym, false≢true, false, ◌==◌, ne→==_false,
  ==_false→ne, Bool-cases, if◌then◌else◌, List, [], ◌∷◌, length, last_or, mem, arith, ok,
}
use operating_system_cortex.Dlist.{Ptr, null}
use operating_system_cortex.Fat.{Volume, Fs, set_volume, read_volume, update_volume}
use operating_system_cortex.Fat.Volumes.{
  is_listed, link_last, volume_get_first, get_from, volume_get,
}

-- The volumes from `p` on are these.
abbrev pub Linked : (Ptr → Volume) → Ptr → List Ptr → Type 0
Linked t p [] = p ≡ null
Linked t p (a ∷ us) = (p ≡ a) × (a ≢ null) × Linked t (t a).next us

-- The first volume with a letter, or NULL.
abbrev pub with_letter : (Ptr → Volume) → (letter : ℕ) → List Ptr → Ptr
with_letter t letter [] = null
with_letter t letter (a ∷ us) = if (t a).letter == letter then a else with_letter t letter us

module _ {S : Type 0} where
  pub read_volume-ok : (p : Ptr) (fs : Fs S) → p ≢ null → read_volume p fs ≡ ok (fs.volumes p, fs)
  unfolding read_volume
  read_volume-ok p fs ne = rw (ne→==_false p null ne) refl

  pub update_volume-ok :
      (p : Ptr) (f : Volume → Volume) (fs : Fs S)
      → p ≢ null
      → update_volume p f fs ≡ ok (tt, set_volume p (f (fs.volumes p)) fs)
  unfolding update_volume
  update_volume-ok p f fs ne = rw (ne→==_false p null ne) refl

  get_from-with_letter :
      (fuel letter : ℕ) (p : Ptr) (fs : Fs S) (vs : List Ptr)
      → Linked fs.volumes p vs
      → length vs < fuel
      → get_from fuel letter p fs ≡ ok (with_letter fs.volumes letter vs, fs)
  unfolding get_from
  get_from-with_letter zero letter p fs vs linked h = absurd (omega arith)
  get_from-with_letter (suc fuel) letter p fs [] linked h = rw linked refl
  get_from-with_letter (suc fuel) letter p fs (a ∷ us) (at, ne, linked) h =
      rw (at, ne→==_false a null ne, read_volume-ok a fs ne)
        (elim (Bool-cases ((fs.volumes a).letter == letter)) [
          | inl e ↦ rw e refl
          | inr e ↦
              rw e (get_from-with_letter fuel letter (fs.volumes a).next fs us linked (omega arith))
        ])

  -- `volume_get` gives the first volume in the list with the letter, NULL if there is none, and changes
  -- nothing.
  pub volume_get-with_letter :
      (fuel letter : ℕ) (fs : Fs S) (vs : List Ptr)
      → Linked fs.volumes fs.volume_base vs
      → length vs < fuel
      → volume_get fuel letter fs ≡ ok (with_letter fs.volumes letter vs, fs)
  unfolding volume_get volume_get_first
  volume_get-with_letter fuel letter fs vs linked h =
      get_from-with_letter fuel letter fs.volume_base fs vs linked h

  pub is_listed-mem :
      (fuel : ℕ) (vol p : Ptr) (fs : Fs S) (vs : List Ptr)
      → Linked fs.volumes p vs
      → length vs < fuel
      → mem vol vs ≡ false
      → is_listed fuel vol p fs ≡ ok (false, fs)
  unfolding is_listed
  is_listed-mem zero vol p fs vs linked h out = absurd (omega arith)
  is_listed-mem (suc fuel) vol p fs [] linked h out = rw linked refl
  is_listed-mem (suc fuel) vol p fs (a ∷ us) (at, ne, linked) h out = elim (Bool-cases (vol == a)) [
    | inl e ↦ absurd (false≢true (sym (rw e at out)))
    | inr e ↦
        rw (at, ne→==_false a null ne, swapped e, read_volume-ok a fs ne)
          (is_listed-mem fuel vol (fs.volumes a).next fs us linked (omega arith) (rw e at out))
  ]
    where
      swapped : (vol == a) ≡ false → (a == vol) ≡ false
      swapped e = ne→==_false a vol (λ q. ==_false→ne vol a e (sym q))

  pub link_last-ok :
      (fuel : ℕ) (vol a : Ptr) (fs : Fs S) (us : List Ptr)
      → Linked fs.volumes a (a ∷ us)
      → length us < fuel
      → link_last fuel vol a fs
        ≡ ok (tt, set_volume (last_or a us) (record (fs.volumes (last_or a us)) { next = vol }) fs)
  unfolding link_last
  link_last-ok zero vol a fs us linked h = absurd (omega arith)
  link_last-ok (suc fuel) vol a fs [] (at, ne, end) h =
      rw (read_volume-ok a fs ne, end, update_volume-ok a (λ v. record v { next = vol }) fs ne) refl
  link_last-ok (suc fuel) vol a fs (b ∷ us) (at, ne, (at', ne', linked)) h =
      rw (read_volume-ok a fs ne, at', ne→==_false b null ne')
        (link_last-ok fuel vol b fs us (refl, ne', linked) (omega arith))
