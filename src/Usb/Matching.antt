-- ===== src/Usb/Matching.antt =====
-- The driver that an interface gets.
use operating_system_cortex.Base.{
  ℕ, ◌≡◌, ◌≢◌, ◌⊎◌, inl, inr, refl, sym, ◌∙◌, Bool, true, false, not, ◌&&◌, ◌==◌, if◌then◌else◌,
  Bool-cases, List, [], ◌∷◌, Option, none, some, test_bit, ==→eq, ==_self, ==_false→ne, false≢true,
}
use operating_system_cortex.Usb.{
  UsbDevId, UsbDriver, UsbIface, UsbDev, id_vendor, id_product, b_device_class, b_device_sub_class,
  b_device_protocol, b_interface_class, b_interface_sub_class, b_interface_protocol,
}
use operating_system_cortex.Usb.Drivers.{
  differs, usbc_check_dev_match, usbc_check_iface_match, match_ids, usbc_check_driver_match,
  driver_from, usbc_find_driver,
}

-- A field agrees, or is not asked for.
abbrev pub Agrees : (flags bit field wanted : ℕ) → Type 0
Agrees flags bit field wanted = test_bit flags bit ≡ true → wanted ≡ field

-- An identifier fits a device with an interface.
pub record Fits (id : UsbDevId) (dev : UsbDev) (iface : UsbIface) : Type 0 where
  pub vendor : Agrees id.flags 0 (id_vendor dev.desc) id.vendor_id
  pub product : Agrees id.flags 1 (id_product dev.desc) id.product_id
  pub dev_class : Agrees id.flags 2 (b_device_class dev.desc) id.dev_class
  pub dev_sub_class : Agrees id.flags 3 (b_device_sub_class dev.desc) id.dev_sub_class
  pub dev_protocol : Agrees id.flags 4 (b_device_protocol dev.desc) id.dev_protocol
  pub iface_class : Agrees id.flags 5 (b_interface_class iface.desc) id.iface_class
  pub iface_sub_class : Agrees id.flags 6 (b_interface_sub_class iface.desc) id.iface_sub_class
  pub iface_protocol : Agrees id.flags 7 (b_interface_protocol iface.desc) id.iface_protocol

both : (b c : Bool) → (b && not c) ≡ false → b ≡ true → c ≡ true
both true true h e = refl
both true false h e = sym h
both false c h e = absurd (false≢true e)

agrees :
    (flags bit field wanted : ℕ)
    → differs flags bit field wanted ≡ false
    → Agrees flags bit field wanted
unfolding differs
agrees flags bit field wanted h e =
    ==→eq wanted field (both (test_bit flags bit) (wanted == field) h e)

differs-Agrees :
    (flags bit field wanted : ℕ)
    → Agrees flags bit field wanted
    → differs flags bit field wanted ≡ false
unfolding differs
differs-Agrees flags bit field wanted a = elim (Bool-cases (test_bit flags bit)) [
  | inl e ↦ rw (e, a e, ==_self field) refl
  | inr e ↦ rw e refl
]

-- A test of the chain that returns 0 at the first field that differs.
guarded : (b c : Bool) → (if b then false else c) ≡ true → (b ≡ false) × (c ≡ true)
guarded true c h = absurd (false≢true h)
guarded false c h = (refl, h)

matched-Fits :
    (id : UsbDevId) (dev : UsbDev) (iface : UsbIface)
    → usbc_check_dev_match id dev ≡ true
    → usbc_check_iface_match id iface ≡ true
    → Fits id dev iface
unfolding usbc_check_dev_match usbc_check_iface_match
matched-Fits id dev iface h k =
    let a = guarded _ _ h in
    let b = guarded _ _ a.1 in
    let c = guarded _ _ b.1 in
    let d = guarded _ _ c.1 in
    let e = guarded _ _ d.1 in
    let f = guarded _ _ k in
    let g = guarded _ _ f.1 in
    let i = guarded _ _ g.1 in
    record {
      vendor = agrees _ _ _ _ a.0;
      product = agrees _ _ _ _ b.0;
      dev_class = agrees _ _ _ _ c.0;
      dev_sub_class = agrees _ _ _ _ d.0;
      dev_protocol = agrees _ _ _ _ e.0;
      iface_class = agrees _ _ _ _ f.0;
      iface_sub_class = agrees _ _ _ _ g.0;
      iface_protocol = agrees _ _ _ _ i.0;
    }

Fits-dev_match :
    (id : UsbDevId) (dev : UsbDev) (iface : UsbIface)
    → Fits id dev iface
    → usbc_check_dev_match id dev ≡ true
unfolding usbc_check_dev_match
Fits-dev_match id dev iface f =
    rw
      (
        differs-Agrees _ _ _ _ f.vendor,
        differs-Agrees _ _ _ _ f.product,
        differs-Agrees _ _ _ _ f.dev_class,
        differs-Agrees _ _ _ _ f.dev_sub_class,
        differs-Agrees _ _ _ _ f.dev_protocol,
      )
      refl

Fits-iface_match :
    (id : UsbDevId) (dev : UsbDev) (iface : UsbIface)
    → Fits id dev iface
    → usbc_check_iface_match id iface ≡ true
unfolding usbc_check_iface_match
Fits-iface_match id dev iface f =
    rw
      (
        differs-Agrees _ _ _ _ f.iface_class,
        differs-Agrees _ _ _ _ f.iface_sub_class,
        differs-Agrees _ _ _ _ f.iface_protocol,
      )
      refl

-- Some identifier of a driver fits.
pub data Supports (dev : UsbDev) (iface : UsbIface) : List UsbDevId → Type 0 where
  here : {id : UsbDevId} {ids : List UsbDevId} → Fits id dev iface → Supports dev iface (id ∷ ids)
  there :
      {id : UsbDevId} {ids : List UsbDevId} → Supports dev iface ids → Supports dev iface (id ∷ ids)

split_and : (b c : Bool) → (b && c) ≡ true → (b ≡ true) × (c ≡ true)
split_and true c h = (refl, h)
split_and false c h = absurd (false≢true h)

unmatched : (b c : Bool) → b ≡ false → (if b then true else c) ≡ true → c ≡ true
unmatched true c e h = absurd (false≢true (sym e))
unmatched false c e h = h

if_same : (b : Bool) → (if b then true else true) ≡ true
if_same true = refl
if_same false = refl

match_ids-Supports :
    (ids : List UsbDevId) (dev : UsbDev) (iface : UsbIface)
    → match_ids ids dev iface ≡ true
    → Supports dev iface ids
unfolding match_ids
match_ids-Supports [] dev iface h = absurd (false≢true h)
match_ids-Supports (id ∷ ids) dev iface h =
    elim (Bool-cases (usbc_check_dev_match id dev && usbc_check_iface_match id iface)) [
      | inl e ↦ let p = split_and _ _ e in here (matched-Fits id dev iface p.0 p.1)
      | inr e ↦ there (match_ids-Supports ids dev iface (unmatched _ _ e h))
    ]

Supports-match_ids :
    (ids : List UsbDevId) (dev : UsbDev) (iface : UsbIface)
    → Supports dev iface ids
    → match_ids ids dev iface ≡ true
unfolding match_ids
Supports-match_ids [] dev iface x = elim x [ ]
Supports-match_ids (id ∷ ids) dev iface (here f) =
    rw (Fits-dev_match id dev iface f, Fits-iface_match id dev iface f) refl
Supports-match_ids (id ∷ ids) dev iface (there f) =
    rw (Supports-match_ids ids dev iface f) (if_same _)

-- The answer is the first driver that supports the interface, if it connects.
pub data Finds (dev : UsbDev) (iface : UsbIface) : List UsbDriver → Option UsbDriver → Type 0 where
  nothing : Finds dev iface [] none
  connects :
      {driver : UsbDriver} {rest : List UsbDriver}
      → Supports dev iface driver.dev_ids
      → driver.connect iface ≢ 0
      → Finds dev iface (driver ∷ rest) (some driver)
  refuses :
      {driver : UsbDriver} {rest : List UsbDriver}
      → Supports dev iface driver.dev_ids
      → driver.connect iface ≡ 0
      → Finds dev iface (driver ∷ rest) none
  passes :
      {driver : UsbDriver} {rest : List UsbDriver} {found : Option UsbDriver}
      → ¬ Supports dev iface driver.dev_ids
      → Finds dev iface rest found
      → Finds dev iface (driver ∷ rest) found

driver_from-Finds :
    (drivers : List UsbDriver) (dev : UsbDev) (iface : UsbIface)
    → Finds dev iface drivers (driver_from drivers dev iface)
unfolding driver_from usbc_check_driver_match
driver_from-Finds [] dev iface = nothing
driver_from-Finds (driver ∷ rest) dev iface =
    elim (Bool-cases (match_ids driver.dev_ids dev iface)) [
      | inl e ↦ elim (Bool-cases (driver.connect iface == 0)) [
        | inl z ↦ rw (e, z) (refuses (match_ids-Supports driver.dev_ids dev iface e) (==→eq _ 0 z))
        | inr z ↦
            rw (e, z) (connects (match_ids-Supports driver.dev_ids dev iface e) (==_false→ne _ 0 z))
      ]
      | inr e ↦ rw e (
          passes (λ p. false≢true (sym e ∙ Supports-match_ids driver.dev_ids dev iface p))
            (driver_from-Finds rest dev iface))
    ]

-- An interface that is assigned gets no driver; any other gets the first driver of the list with
-- an identifier whose wanted fields all agree, if its connect function answers with other than 0,
-- and else none.
pub usbc_find_driver-Finds :
    (drivers : List UsbDriver) (dev : UsbDev) (iface : UsbIface)
    → ((iface.assigned ≡ 1) × (usbc_find_driver drivers dev iface ≡ none))
      ⊎ ((iface.assigned ≢ 1) × Finds dev iface drivers (usbc_find_driver drivers dev iface))
unfolding usbc_find_driver
usbc_find_driver-Finds drivers dev iface = elim (Bool-cases (iface.assigned == 1)) [
  | inl e ↦ inl (==→eq iface.assigned 1 e, rw e refl)
  | inr e ↦ inr (==_false→ne iface.assigned 1 e, rw e (driver_from-Finds drivers dev iface))
]
