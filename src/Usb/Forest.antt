-- ===== src/Usb/Forest.antt =====
-- The interfaces of a configuration, and the configurations of a device, after
-- usbc_parse_descriptors.
use operating_system_cortex.Base.{
  ℕ, ◌+◌, ◌^◌, ◌<◌, ◌≡◌, refl, sym, ◌∙◌, ap, true, ne→==_false, List, [], ◌∷◌, ◌++◌, length, arith,
}
use operating_system_cortex.Dlist.{Ptr}
use operating_system_cortex.Usb.{UsbEp, UsbConfig, Objects}
use operating_system_cortex.Usb.Descriptors.{
  Counts, Parse, parse_iface, parse_ep, store_iface, store_ep, link_iface,
}
use operating_system_cortex.Usb.Enumeration.{print_ifaces}
use operating_system_cortex.Usb.Stream.{Descriptor, iface, ep, u32_small}
use operating_system_cortex.Usb.Layout.{parse_all}
use operating_system_cortex.Usb.Kept.{
  config_place, iface_place, Fits, Fits-next, iface_address-iface_place, quiet_iface, quiet_config,
  objects_after, objects_of, config_at-parse_all,
}
use operating_system_cortex.Usb.Tree.{
  IfaceTree, ConfigTree, eps_then, ifaces_then, descriptors, ifaces_bytes, store_config_same,
  iface_printed, cons_path,
}

-- The state behind the endpoints of an interface, or behind the interfaces of a configuration.
record PastEps (n : Counts) (xs rest : List Descriptor) (s : Parse) : Type 0 where
  after : Parse
  run : parse_all n xs s ≡ parse_all n rest after
  fits : Fits n rest after
  block : after.dev.configs ≡ s.dev.configs
  num : after.dev.num_configs ≡ s.dev.num_configs
  configs : after.config_index ≡ s.config_index
  ifaces : after.iface_index ≡ s.iface_index
  cfg : after.last_cfg ≡ s.last_cfg
  config_at : after.dev.objects.config_at ≡ s.dev.objects.config_at

past_eps :
    (n : Counts) (es : List UsbEp) (rest : List Descriptor) (s : Parse)
    → Fits n (eps_then es rest) s
    → PastEps n (eps_then es rest) rest s
unfolding parse_ep store_ep store_iface
past_eps n [] rest s f = record {
  after = s;
  run = refl;
  fits = f;
  block = refl;
  num = refl;
  configs = refl;
  ifaces = refl;
  cfg = refl;
  config_at = refl;
}
past_eps n (e ∷ es) rest s f =
    let p = past_eps n es rest (parse_ep n e s) (Fits-next n (ep e) (eps_then es rest) s f) in
    record {
      after = p.after;
      run = p.run;
      fits = p.fits;
      block = p.block;
      num = p.num;
      configs = p.configs;
      ifaces = p.ifaces;
      cfg = p.cfg;
      config_at = p.config_at;
    }

-- Behind an interface with its endpoints.
pub record PastIface (n : Counts) (t : IfaceTree) (rest : List Descriptor) (s : Parse)
    : Type 0 where
  pub after : Parse
  pub run : parse_all n (iface t.desc ∷ eps_then t.eps rest) s ≡ parse_all n rest after
  pub fits : Fits n rest after
  pub block : after.dev.configs ≡ s.dev.configs
  pub num : after.dev.num_configs ≡ s.dev.num_configs
  pub configs : after.config_index ≡ s.config_index
  pub ifaces : after.iface_index ≡ s.iface_index + 1
  pub cfg : after.last_cfg ≡ s.last_cfg
  pub config_at :
      after.dev.objects.config_at s.last_cfg
      ≡ link_iface (iface_place n s.dev.configs s.iface_index) (s.dev.objects.config_at s.last_cfg)

pub past_iface :
    (n : Counts) (t : IfaceTree) (rest : List Descriptor) (s : Parse)
    → Fits n (iface t.desc ∷ eps_then t.eps rest) s
    → PastIface n t rest s
unfolding parse_iface store_iface
past_iface n t rest s f =
    let p =
      past_eps n t.eps rest (parse_iface n t.desc s)
        (Fits-next n (iface t.desc) (eps_then t.eps rest) s f) in
    record {
      after = p.after;
      run = p.run;
      fits = p.fits;
      block = p.block;
      num = p.num;
      configs = p.configs;
      ifaces = p.ifaces ∙ omega (arith, f.ifaces_left, f.room);
      cfg = p.cfg;
      config_at =
          ap (λ g. g s.last_cfg) p.config_at
          ∙ rw (iface_address-iface_place n t.desc (eps_then t.eps rest) s f)
              (store_config_same s.last_cfg _ _);
    }

pub config_moves :
    (n : Counts) (t : IfaceTree) (rest : List Descriptor) (s : Parse) (q : Ptr) (c : UsbConfig)
    → (past : PastIface n t rest s) → s.last_cfg ≡ q
    → s.dev.objects.config_at q ≡ c
    → past.after.dev.objects.config_at q ≡ link_iface (iface_place n s.dev.configs s.iface_index) c
config_moves n t rest s q c past l a = rw (sym a, sym l) past.config_at

pub quiet_iface-ifaces_then :
    (ts : List IfaceTree) (rest : List Descriptor)
    → quiet_iface rest ≡ true
    → quiet_iface (ifaces_then ts rest) ≡ true
quiet_iface-ifaces_then [] rest h = h
quiet_iface-ifaces_then (t ∷ ts) rest h = refl

pub quiet_iface-descriptors : (cs : List ConfigTree) → quiet_iface (descriptors cs) ≡ true
quiet_iface-descriptors [] = refl
quiet_iface-descriptors (c ∷ cs) =
    quiet_iface-ifaces_then c.ifaces (descriptors cs) (quiet_iface-descriptors cs)

pub quiet_config-descriptors : (cs : List ConfigTree) → quiet_config (descriptors cs) ≡ true
quiet_config-descriptors [] = refl
quiet_config-descriptors (c ∷ cs) = refl

pub objects_path : {s s' : Parse} → s ≡ s' → objects_of s ≡ objects_of s'
objects_path e = ap objects_of e

-- The printing of interfaces, where nothing but the names of its arguments changes.
pub print_ifaces_path :
    (count : ℕ) {p q : Ptr} {o o' : Objects}
    → p ≡ q
    → o ≡ o'
    → print_ifaces count p o ≡ print_ifaces count q o'
print_ifaces_path count e f = rw (e, f) refl

pub append_path : {xs xs' ys ys' : List (List ℕ)} → xs ≡ xs' → ys ≡ ys' → xs ++ ys ≡ xs' ++ ys'
append_path e f = rw (e, f) refl

pub print_ifaces-ifaces_then :
    (n : Counts) (ts : List IfaceTree) (rest : List Descriptor) (s : Parse)
    → Fits n (ifaces_then ts rest) s
    → quiet_iface rest ≡ true
    → print_ifaces
        (length ts)
        (iface_place n s.dev.configs s.iface_index)
        (objects_after n (ifaces_then ts rest) s)
      ≡ ifaces_bytes ts
unfolding print_ifaces
print_ifaces-ifaces_then n [] rest s f quiet = refl
print_ifaces-ifaces_then n (t ∷ ts) rest s f quiet =
    let printed =
      iface_printed n t (ifaces_then ts rest) s f (quiet_iface-ifaces_then ts rest quiet) in
    let past = past_iface n t (ifaces_then ts rest) s f in
    cons_path printed.0 (
      append_path printed.1 (
        print_ifaces_path (length ts) (omega (arith, past.block, past.ifaces))
          (objects_path past.run)
        ∙ print_ifaces-ifaces_then n ts rest past.after past.fits quiet))

-- The interfaces behind the first one are linked to the configuration.
abbrev linked : UsbConfig → (count : ℕ) → UsbConfig
linked c count = record c { num_ifaces = c.num_ifaces + count }

pub link_iface-linked :
    (a : Ptr) (c : UsbConfig)
    → 0 < c.num_ifaces
    → c.num_ifaces + 1 < 2 ^ 32
    → link_iface a c ≡ linked c 1
unfolding link_iface
link_iface-linked a c h k =
    rw (ne→==_false c.num_ifaces 0 (omega arith), u32_small (c.num_ifaces + 1) k) refl

pub linked_ifaces :
    (n : Counts) (ts : List IfaceTree) (rest : List Descriptor) (s : Parse) (q : Ptr)
    (c : UsbConfig)
    → Fits n (ifaces_then ts rest) s
    → s.last_cfg ≡ q
    → s.dev.objects.config_at q ≡ c
    → q < config_place n s.dev.configs s.config_index
    → quiet_config rest ≡ true
    → 0 < c.num_ifaces
    → c.num_ifaces + length ts < 2 ^ 32
    → Objects.config_at (objects_after n (ifaces_then ts rest) s) q ≡ linked c (length ts)
linked_ifaces n [] rest s q c f l a below quiet some_ifaces small =
    config_at-parse_all n rest s q f (below, λ e. quiet)
    ∙ a
    ∙ ap (λ k. record c { num_ifaces = k }) (omega arith)
linked_ifaces n (t ∷ ts) rest s q c f l a below quiet some_ifaces small =
    let past = past_iface n t (ifaces_then ts rest) s f in
    ap (λ o. Objects.config_at o q) (objects_path past.run)
    ∙ linked_ifaces n ts rest past.after q (linked c 1) past.fits (past.cfg ∙ l)
        (config_moves n t (ifaces_then ts rest) s q c past l a
          ∙ link_iface-linked _ c some_ifaces (omega arith))
        (omega (arith, past.block, past.configs)) quiet (omega arith) (omega arith)
    ∙ ap (λ k. record c { num_ifaces = k }) (omega arith)
