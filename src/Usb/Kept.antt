-- ===== src/Usb/Kept.antt =====
-- What usbc_parse_descriptors has written is not written again: objects below the next free one of
-- their kind keep what they are.
use operating_system_cortex.Base.{
  ℕ, ◌+◌, ◌*◌, ◌^◌, ◌<◌, ◌≤◌, ◌≡◌, ◌≢◌, refl, ◌∙◌, Bool, true, false, false≢true, ne→==_false, List,
  [], ◌∷◌, arith,
}
use operating_system_cortex.Dlist.{Ptr}
use operating_system_cortex.Usb.{UsbEp, UsbIface, UsbConfig, Objects, UsbDev}
use operating_system_cortex.Usb.Descriptors.{
  Counts, usbc_get_desc_offset, Parse, config_address, iface_address, ep_address, parse_config,
  parse_iface, parse_ep, store_config, store_iface, store_ep,
}
use operating_system_cortex.Usb.Stream.{
  Descriptor, config, iface, ep, configs_in, ifaces_in, eps_in,
}
use operating_system_cortex.Usb.Layout.{parse_one, parse_all}

-- The addresses of the objects in the block.
abbrev pub config_place : Counts → (block : Ptr) → ℕ → Ptr
config_place n block i = block + i * 24

abbrev pub iface_place : Counts → (block : Ptr) → ℕ → Ptr
iface_place n block i = block + (n.configs * 24 + i * 40)

abbrev pub ep_place : Counts → (block : Ptr) → ℕ → Ptr
ep_place n block i = block + (n.configs * 24 + n.ifaces * 40 + i * 12)

-- The descriptors that are left have their places.
pub record Fits (n : Counts) (xs : List Descriptor) (s : Parse) : Type 0 where
  pub configs_left : s.config_index + configs_in xs ≤ n.configs
  pub ifaces_left : s.iface_index + ifaces_in xs ≤ n.ifaces
  pub eps_left : s.ep_index + eps_in xs ≤ n.eps
  pub room : n.configs * 24 + n.ifaces * 40 + n.eps * 12 < 2 ^ 32

pub Fits-next :
    (n : Counts) (x : Descriptor) (xs : List Descriptor) (s : Parse)
    → Fits n (x ∷ xs) s
    → Fits n xs (parse_one n x s)
unfolding parse_config parse_iface parse_ep
Fits-next n (config d) xs s f = record {
  configs_left = omega (arith, f.configs_left, f.room);
  ifaces_left = f.ifaces_left;
  eps_left = f.eps_left;
  room = f.room;
}
Fits-next n (iface d) xs s f = record {
  configs_left = f.configs_left;
  ifaces_left = omega (arith, f.ifaces_left, f.room);
  eps_left = f.eps_left;
  room = f.room;
}
Fits-next n (ep e) xs s f = record {
  configs_left = f.configs_left;
  ifaces_left = f.ifaces_left;
  eps_left = omega (arith, f.eps_left, f.room);
  room = f.room;
}

pub config_address-config_place :
    (n : Counts) (d : List ℕ) (xs : List Descriptor) (s : Parse)
    → Fits n (config d ∷ xs) s
    → config_address n s ≡ config_place n s.dev.configs s.config_index
unfolding config_address usbc_get_desc_offset
config_address-config_place n d xs s f = omega (arith, f.configs_left, f.room)

pub iface_address-iface_place :
    (n : Counts) (d : List ℕ) (xs : List Descriptor) (s : Parse)
    → Fits n (iface d ∷ xs) s
    → iface_address n s ≡ iface_place n s.dev.configs s.iface_index
unfolding iface_address usbc_get_desc_offset
iface_address-iface_place n d xs s f = omega (arith, f.ifaces_left, f.room)

pub ep_address-ep_place :
    (n : Counts) (e : UsbEp) (xs : List Descriptor) (s : Parse)
    → Fits n (ep e ∷ xs) s
    → ep_address n s ≡ ep_place n s.dev.configs s.ep_index
unfolding ep_address usbc_get_desc_offset
ep_address-ep_place n e xs s f = omega (arith, f.eps_left, f.room)

-- Whether what follows leaves the last interface, and the last configuration, as they are.
abbrev pub quiet_iface : List Descriptor → Bool
quiet_iface [] = true
quiet_iface (config d ∷ xs) = quiet_iface xs
quiet_iface (iface d ∷ xs) = true
quiet_iface (ep e ∷ xs) = false

abbrev pub quiet_config : List Descriptor → Bool
quiet_config [] = true
quiet_config (config d ∷ xs) = true
quiet_config (iface d ∷ xs) = false
quiet_config (ep e ∷ xs) = quiet_config xs

abbrev pub objects_after : Counts → List Descriptor → Parse → Objects
objects_after n xs s = UsbDev.objects (Parse.dev (parse_all n xs s))

abbrev pub objects_of : Parse → Objects
objects_of s = s.dev.objects

store_ep_other :
    (p q : Ptr) (v : UsbEp) (o : Objects) → q ≢ p → Objects.ep_at (store_ep p v o) q ≡ o.ep_at q
unfolding store_ep
store_ep_other p q v o h = rw (ne→==_false q p h) refl

store_iface_other :
    (p q : Ptr) (v : UsbIface) (o : Objects)
    → q ≢ p
    → Objects.iface_at (store_iface p v o) q ≡ o.iface_at q
unfolding store_iface
store_iface_other p q v o h = rw (ne→==_false q p h) refl

store_config_other :
    (p q : Ptr) (v : UsbConfig) (o : Objects)
    → q ≢ p
    → Objects.config_at (store_config p v o) q ≡ o.config_at q
unfolding store_config
store_config_other p q v o h = rw (ne→==_false q p h) refl

-- One descriptor leaves the objects of the other places.
ep_at_kept :
    (n : Counts) (x : Descriptor) (xs : List Descriptor) (s : Parse) (q : Ptr)
    → Fits n (x ∷ xs) s
    → q < ep_place n s.dev.configs s.ep_index
    → (Objects.ep_at (objects_of (parse_one n x s)) q ≡ s.dev.objects.ep_at q)
      × (q
          < ep_place n
              (UsbDev.configs (Parse.dev (parse_one n x s)))
              (Parse.ep_index (parse_one n x s)))
unfolding parse_config parse_iface parse_ep store_config store_iface
ep_at_kept n (config d) xs s q f h = (refl, h)
ep_at_kept n (iface d) xs s q f h = (refl, h)
ep_at_kept n (ep e) xs s q f h = (
  store_ep_other (ep_address n s) q e s.dev.objects (omega (arith, ep_address-ep_place n e xs s f)),
  omega (arith, f.eps_left, f.room),
)

pub ep_at-parse_all :
    (n : Counts) (xs : List Descriptor) (s : Parse) (q : Ptr)
    → Fits n xs s
    → q < ep_place n s.dev.configs s.ep_index
    → Objects.ep_at (objects_after n xs s) q ≡ s.dev.objects.ep_at q
ep_at-parse_all n [] s q f h = refl
ep_at-parse_all n (x ∷ xs) s q f h =
    let k = ep_at_kept n x xs s q f h in
    ep_at-parse_all n xs (parse_one n x s) q (Fits-next n x xs s f) k.1 ∙ k.0

-- `q` is below the next interface, and is the last one only if that stays as it is.
abbrev pub SafeIface : Counts → List Descriptor → Parse → (q : Ptr) → Type 0
SafeIface n xs s q =
    (q < iface_place n s.dev.configs s.iface_index) × (q ≡ s.last_iface → quiet_iface xs ≡ true)

iface_at_kept :
    (n : Counts) (x : Descriptor) (xs : List Descriptor) (s : Parse) (q : Ptr)
    → Fits n (x ∷ xs) s
    → SafeIface n (x ∷ xs) s q
    → (Objects.iface_at (objects_of (parse_one n x s)) q ≡ s.dev.objects.iface_at q)
      × SafeIface n xs (parse_one n x s) q
unfolding parse_config parse_iface parse_ep store_config store_ep
iface_at_kept n (config d) xs s q f h = (refl, (h.0, h.1))
iface_at_kept n (iface d) xs s q f h =
    let ne : q ≢ iface_address n s = omega (arith, h.0, iface_address-iface_place n d xs s f) in
    (
      store_iface_other (iface_address n s) q _ s.dev.objects ne,
      (omega (arith, h.0, f.ifaces_left, f.room), λ e. absurd (ne e)),
    )
iface_at_kept n (ep e) xs s q f h = (
  store_iface_other s.last_iface q _ _ (λ e. false≢true (h.1 e)),
  (h.0, λ e. absurd (false≢true (h.1 e))),
)

pub iface_at-parse_all :
    (n : Counts) (xs : List Descriptor) (s : Parse) (q : Ptr)
    → Fits n xs s
    → SafeIface n xs s q
    → Objects.iface_at (objects_after n xs s) q ≡ s.dev.objects.iface_at q
iface_at-parse_all n [] s q f h = refl
iface_at-parse_all n (x ∷ xs) s q f h =
    let k = iface_at_kept n x xs s q f h in
    iface_at-parse_all n xs (parse_one n x s) q (Fits-next n x xs s f) k.1 ∙ k.0

abbrev pub SafeConfig : Counts → List Descriptor → Parse → (q : Ptr) → Type 0
SafeConfig n xs s q =
    (q < config_place n s.dev.configs s.config_index) × (q ≡ s.last_cfg → quiet_config xs ≡ true)

config_at_kept :
    (n : Counts) (x : Descriptor) (xs : List Descriptor) (s : Parse) (q : Ptr)
    → Fits n (x ∷ xs) s
    → SafeConfig n (x ∷ xs) s q
    → (Objects.config_at (objects_of (parse_one n x s)) q ≡ s.dev.objects.config_at q)
      × SafeConfig n xs (parse_one n x s) q
unfolding parse_config parse_iface parse_ep store_iface store_ep
config_at_kept n (config d) xs s q f h =
    let ne : q ≢ config_address n s = omega (arith, h.0, config_address-config_place n d xs s f) in
    (
      store_config_other (config_address n s) q _ s.dev.objects ne,
      (omega (arith, h.0, f.configs_left, f.room), λ e. absurd (ne e)),
    )
config_at_kept n (iface d) xs s q f h = (
  store_config_other s.last_cfg q _ _ (λ e. false≢true (h.1 e)),
  (h.0, λ e. absurd (false≢true (h.1 e))),
)
config_at_kept n (ep e) xs s q f h = (refl, (h.0, h.1))

pub config_at-parse_all :
    (n : Counts) (xs : List Descriptor) (s : Parse) (q : Ptr)
    → Fits n xs s
    → SafeConfig n xs s q
    → Objects.config_at (objects_after n xs s) q ≡ s.dev.objects.config_at q
config_at-parse_all n [] s q f h = refl
config_at-parse_all n (x ∷ xs) s q f h =
    let k = config_at_kept n x xs s q f h in
    config_at-parse_all n xs (parse_one n x s) q (Fits-next n x xs s f) k.1 ∙ k.0
