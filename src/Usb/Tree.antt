-- ===== src/Usb/Tree.antt =====
-- The descriptors of a device as a tree, and the stream in which the device sends them.
use operating_system_cortex.Base.{
  ℕ, suc, ◌+◌, ◌^◌, ◌<◌, ◌≡◌, refl, sym, ◌∙◌, ap, true, ==_self, ne→==_false, List, [], ◌∷◌, ◌++◌,
  map, length, u32, arith,
}
use operating_system_cortex.Dlist.{Ptr}
use operating_system_cortex.Usb.{UsbEp, UsbIface, UsbConfig, Objects}
use operating_system_cortex.Usb.Descriptors.{
  Counts, Parse, ep_address, parse_iface, parse_ep, store_config, store_iface, store_ep, new_iface,
  link_ep,
}
use operating_system_cortex.Usb.Enumeration.{print_eps}
use operating_system_cortex.Usb.Stream.{Descriptor, config, iface, ep, eps_in, u32_small}
use operating_system_cortex.Usb.Kept.{
  iface_place, ep_place, Fits, Fits-next, iface_address-iface_place, ep_address-ep_place,
  quiet_iface, objects_after, objects_of, ep_at-parse_all, iface_at-parse_all,
}

pub record IfaceTree : Type 0 where
  pub desc : List ℕ
  pub eps : List UsbEp

pub record ConfigTree : Type 0 where
  pub desc : List ℕ
  pub ifaces : List IfaceTree

abbrev pub eps_then : List UsbEp → List Descriptor → List Descriptor
eps_then [] rest = rest
eps_then (e ∷ es) rest = ep e ∷ eps_then es rest

abbrev pub ifaces_then : List IfaceTree → List Descriptor → List Descriptor
ifaces_then [] rest = rest
ifaces_then (t ∷ ts) rest = iface t.desc ∷ eps_then t.eps (ifaces_then ts rest)

abbrev pub descriptors : List ConfigTree → List Descriptor
descriptors [] = []
descriptors (c ∷ cs) = config c.desc ∷ ifaces_then c.ifaces (descriptors cs)

-- The bytes of the descriptors, each with those below it.
abbrev pub ifaces_bytes : List IfaceTree → List (List ℕ)
ifaces_bytes [] = []
ifaces_bytes (t ∷ ts) = t.desc ∷ (map (λ e. UsbEp.desc e) t.eps ++ ifaces_bytes ts)

abbrev pub configs_bytes : List ConfigTree → List (List ℕ)
configs_bytes [] = []
configs_bytes (c ∷ cs) = c.desc ∷ (ifaces_bytes c.ifaces ++ configs_bytes cs)

store_ep_same : (p : Ptr) (v : UsbEp) (o : Objects) → Objects.ep_at (store_ep p v o) p ≡ v
unfolding store_ep
store_ep_same p v o = rw (==_self p) refl

store_iface_same :
    (p : Ptr) (v : UsbIface) (o : Objects) → Objects.iface_at (store_iface p v o) p ≡ v
unfolding store_iface
store_iface_same p v o = rw (==_self p) refl

pub store_config_same :
    (p : Ptr) (v : UsbConfig) (o : Objects) → Objects.config_at (store_config p v o) p ≡ v
unfolding store_config
store_config_same p v o = rw (==_self p) refl

pub cons_path {ℓ} : {A : Type ℓ} {a b : A} {xs ys : List A} → a ≡ b → xs ≡ ys → a ∷ xs ≡ b ∷ ys
cons_path p q = rw (p, q) refl

-- An endpoint is printed as it came.
ep_stays :
    (n : Counts) (e : UsbEp) (xs : List Descriptor) (s : Parse)
    → Fits n (ep e ∷ xs) s
    → Objects.ep_at (objects_after n (ep e ∷ xs) s) (ep_place n s.dev.configs s.ep_index) ≡ e
unfolding parse_ep store_iface
ep_stays n e xs s f =
    ep_at-parse_all n xs (parse_ep n e s) (ep_place n s.dev.configs s.ep_index)
      (Fits-next n (ep e) xs s f) (omega (arith, f.eps_left, f.room))
    ∙ rw (sym (ep_address-ep_place n e xs s f)) (store_ep_same (ep_address n s) e s.dev.objects)

print_eps-eps_then :
    (n : Counts) (es : List UsbEp) (rest : List Descriptor) (s : Parse)
    → Fits n (eps_then es rest) s
    → print_eps
        (length es)
        (ep_place n s.dev.configs s.ep_index)
        (objects_after n (eps_then es rest) s)
      ≡ map (λ e. UsbEp.desc e) es
unfolding print_eps parse_ep
print_eps-eps_then n [] rest s f = refl
print_eps-eps_then n (e ∷ es) rest s f =
    let place : ep_place n s.dev.configs s.ep_index + 12
        ≡ ep_place n s.dev.configs (u32 (s.ep_index + 1)) =
      omega (arith, f.eps_left, f.room) in
    cons_path (ap (λ e. UsbEp.desc e) (ep_stays n e (eps_then es rest) s f)) (
      rw place
        (print_eps-eps_then n es rest (parse_ep n e s) (Fits-next n (ep e) (eps_then es rest) s f)))

print_none : (p : Ptr) (o : Objects) → print_eps 0 p o ≡ []
unfolding print_eps
print_none p o = refl

-- The endpoints behind the first one are linked to the interface.
abbrev linked : UsbIface → (count : ℕ) → UsbIface
linked i count = record i { num_eps = i.num_eps + count }

linked_path : (i : UsbIface) {a b : ℕ} → a ≡ b → linked i a ≡ linked i b
linked_path i e = rw e refl

link_ep-linked :
    (a : Ptr) (i : UsbIface) → 0 < i.num_eps → i.num_eps + 1 < 2 ^ 32 → link_ep a i ≡ linked i 1
unfolding link_ep
link_ep-linked a i h k =
    rw (ne→==_false i.num_eps 0 (omega arith), u32_small (i.num_eps + 1) k) refl

-- The last interface after an endpoint.
ep_links :
    (n : Counts) (e : UsbEp) (s : Parse) (p : Ptr) (i : UsbIface)
    → s.last_iface ≡ p
    → s.dev.objects.iface_at p ≡ i
    → Objects.iface_at (objects_of (parse_ep n e s)) p ≡ link_ep (ep_address n s) i
unfolding parse_ep store_ep
ep_links n e s p i l a = rw (sym a, sym l) (store_iface_same s.last_iface _ _)

linked_eps :
    (n : Counts) (es : List UsbEp) (rest : List Descriptor) (s : Parse) (p : Ptr) (i : UsbIface)
    → Fits n (eps_then es rest) s
    → s.last_iface ≡ p
    → s.dev.objects.iface_at p ≡ i
    → p < iface_place n s.dev.configs s.iface_index
    → quiet_iface rest ≡ true
    → 0 < i.num_eps
    → i.num_eps + length es < 2 ^ 32
    → Objects.iface_at (objects_after n (eps_then es rest) s) p ≡ linked i (length es)
unfolding parse_ep
linked_eps n [] rest s p i f l a below quiet some_eps small =
    iface_at-parse_all n rest s p f (below, λ e. quiet)
    ∙ a
    ∙ ap (λ k. record i { num_eps = k }) (omega arith)
linked_eps n (e ∷ es) rest s p i f l a below quiet some_eps small =
    linked_eps n es rest (parse_ep n e s) p (linked i 1) (Fits-next n (ep e) (eps_then es rest) s f)
      l (ep_links n e s p i l a ∙ link_ep-linked (ep_address n s) i some_eps (omega arith)) below
      quiet (omega arith) (omega arith)
    ∙ ap (λ k. record i { num_eps = k }) (omega arith)

pub eps_in-eps_then :
    (es : List UsbEp) (rest : List Descriptor) → eps_in (eps_then es rest) ≡ length es + eps_in rest
eps_in-eps_then [] rest = omega arith
eps_in-eps_then (e ∷ es) rest = omega (arith, eps_in-eps_then es rest)

abbrev with_eps : UsbIface → (a : Ptr) → (count : ℕ) → UsbIface
with_eps i a count = record i { eps = a; num_eps = count }

link_ep-first : (a : Ptr) (i : UsbIface) → i.num_eps ≡ 0 → link_ep a i ≡ with_eps i a 1
unfolding link_ep
link_ep-first a i z = rw z refl

-- What an interface prints, with its endpoints.
abbrev pub PrintsIface : Objects → (p : Ptr) → (desc : List ℕ) → List UsbEp → Type 0
PrintsIface o p desc es =
    (UsbIface.desc (o.iface_at p) ≡ desc)
    × (print_eps (UsbIface.num_eps (o.iface_at p)) (UsbIface.eps (o.iface_at p)) o
        ≡ map (λ e. UsbEp.desc e) es)

prints_linked :
    (o : Objects) (p : Ptr) (desc : List ℕ) (es : List UsbEp) (i : UsbIface)
    → o.iface_at p ≡ i
    → i.desc ≡ desc
    → print_eps i.num_eps i.eps o ≡ map (λ e. UsbEp.desc e) es
    → PrintsIface o p desc es
prints_linked o p desc es i a d e = (
  ap (λ i. UsbIface.desc i) a ∙ d,
  ap (λ i. print_eps (UsbIface.num_eps i) (UsbIface.eps i) o) a ∙ e,
)

eps_printed :
    (n : Counts) (es : List UsbEp) (rest : List Descriptor) (s : Parse) (p : Ptr) (i : UsbIface)
    → Fits n (eps_then es rest) s
    → s.last_iface ≡ p
    → s.dev.objects.iface_at p ≡ i
    → p < iface_place n s.dev.configs s.iface_index
    → quiet_iface rest ≡ true
    → i.num_eps ≡ 0
    → PrintsIface (objects_after n (eps_then es rest) s) p i.desc es
unfolding parse_ep
eps_printed n [] rest s p i f l a below quiet z =
    prints_linked (objects_after n rest s) p i.desc [] i
      (iface_at-parse_all n rest s p f (below, λ e. quiet) ∙ a) refl (rw z (print_none i.eps _))
eps_printed n (e ∷ es) rest s p i f l a below quiet z =
    prints_linked (objects_after n (eps_then (e ∷ es) rest) s) p i.desc (e ∷ es)
      (with_eps i (ep_address n s) (suc (length es)))
      (linked_eps n es rest (parse_ep n e s) p (with_eps i (ep_address n s) 1)
          (Fits-next n (ep e) (eps_then es rest) s f) l
          (ep_links n e s p i l a ∙ link_ep-first (ep_address n s) i z) below quiet (omega arith)
          (omega (arith, f.room, f.eps_left, eps_in-eps_then es rest))
        ∙ ap (with_eps i (ep_address n s)) (omega arith))
      refl
      (rw (ep_address-ep_place n e (eps_then es rest) s f) (print_eps-eps_then n (e ∷ es) rest s f))

-- A new interface is printed with its endpoints.
pub iface_printed :
    (n : Counts) (t : IfaceTree) (rest : List Descriptor) (s : Parse)
    → Fits n (iface t.desc ∷ eps_then t.eps rest) s
    → quiet_iface rest ≡ true
    → PrintsIface
        (objects_after n (iface t.desc ∷ eps_then t.eps rest) s)
        (iface_place n s.dev.configs s.iface_index)
        t.desc
        t.eps
unfolding parse_iface store_config new_iface
iface_printed n t rest s f quiet =
    eps_printed n t.eps rest (parse_iface n t.desc s) (iface_place n s.dev.configs s.iface_index)
      (new_iface t.desc (s.dev.objects.iface_at (iface_place n s.dev.configs s.iface_index)))
      (Fits-next n (iface t.desc) (eps_then t.eps rest) s f)
      (iface_address-iface_place n t.desc (eps_then t.eps rest) s f)
      (rw (iface_address-iface_place n t.desc (eps_then t.eps rest) s f)
        (store_iface_same (iface_place n s.dev.configs s.iface_index) _ s.dev.objects))
      (omega (arith, f.ifaces_left, f.room)) quiet refl
