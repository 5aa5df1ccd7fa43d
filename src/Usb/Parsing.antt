-- ===== src/Usb/Parsing.antt =====
-- What usbc_parse_descriptors makes of the descriptors that a device sends.
use operating_system_cortex.Base.{
  ℕ, suc, ◌+◌, ◌<◌, ◌≡◌, refl, ◌∙◌, ap, true, List, [], ◌∷◌, length, arith,
}
use operating_system_cortex.Dlist.{Ptr}
use operating_system_cortex.Usb.{UsbEp, UsbConfig, Objects}
use operating_system_cortex.Usb.Descriptors.{Counts, Parse, parse_config, new_config, link_iface}
use operating_system_cortex.Usb.Enumeration.{print_ifaces}
use operating_system_cortex.Usb.Stream.{Descriptor, config, ifaces_in}
use operating_system_cortex.Usb.Kept.{
  config_place, iface_place, Fits, Fits-next, config_address-config_place, quiet_iface,
  quiet_config, objects_after, config_at-parse_all,
}
use operating_system_cortex.Usb.Tree.{
  IfaceTree, ConfigTree, eps_then, ifaces_then, ifaces_bytes, store_config_same,
}
use operating_system_cortex.Usb.Forest.{
  past_iface, objects_path, print_ifaces-ifaces_then, linked_ifaces, config_moves,
}

ifaces_in-eps_then :
    (es : List UsbEp) (rest : List Descriptor) → ifaces_in (eps_then es rest) ≡ ifaces_in rest
ifaces_in-eps_then [] rest = refl
ifaces_in-eps_then (e ∷ es) rest = ifaces_in-eps_then es rest

ifaces_in-ifaces_then :
    (ts : List IfaceTree) (rest : List Descriptor)
    → ifaces_in (ifaces_then ts rest) ≡ length ts + ifaces_in rest
ifaces_in-ifaces_then [] rest = omega arith
ifaces_in-ifaces_then (t ∷ ts) rest =
    omega (arith, ifaces_in-eps_then t.eps (ifaces_then ts rest), ifaces_in-ifaces_then ts rest)

abbrev with_ifaces : UsbConfig → (a : Ptr) → (count : ℕ) → UsbConfig
with_ifaces c a count = record c { ifaces = a; num_ifaces = count }

link_iface-first : (a : Ptr) (c : UsbConfig) → c.num_ifaces ≡ 0 → link_iface a c ≡ with_ifaces c a 1
unfolding link_iface
link_iface-first a c z = rw z refl

-- What a configuration prints, with its interfaces.
abbrev PrintsConfig : Objects → (q : Ptr) → (desc : List ℕ) → List IfaceTree → Type 0
PrintsConfig o q desc ts =
    (UsbConfig.desc (o.config_at q) ≡ desc)
    × (print_ifaces (UsbConfig.num_ifaces (o.config_at q)) (UsbConfig.ifaces (o.config_at q)) o
        ≡ ifaces_bytes ts)

prints_linked :
    (o : Objects) (q : Ptr) (desc : List ℕ) (ts : List IfaceTree) (c : UsbConfig)
    → o.config_at q ≡ c
    → c.desc ≡ desc
    → print_ifaces c.num_ifaces c.ifaces o ≡ ifaces_bytes ts
    → PrintsConfig o q desc ts
prints_linked o q desc ts c a d e = (
  ap (λ c. UsbConfig.desc c) a ∙ d,
  ap (λ c. print_ifaces (UsbConfig.num_ifaces c) (UsbConfig.ifaces c) o) a ∙ e,
)

print_none : (p : Ptr) (o : Objects) → print_ifaces 0 p o ≡ []
unfolding print_ifaces
print_none p o = refl

ifaces_printed :
    (n : Counts) (ts : List IfaceTree) (rest : List Descriptor) (s : Parse) (q : Ptr)
    (c : UsbConfig)
    → Fits n (ifaces_then ts rest) s
    → s.last_cfg ≡ q
    → s.dev.objects.config_at q ≡ c
    → q < config_place n s.dev.configs s.config_index
    → quiet_iface rest ≡ true
    → quiet_config rest ≡ true
    → c.num_ifaces ≡ 0
    → PrintsConfig (objects_after n (ifaces_then ts rest) s) q c.desc ts
ifaces_printed n [] rest s q c f l a below quiet quiet' z =
    prints_linked (objects_after n rest s) q c.desc [] c
      (config_at-parse_all n rest s q f (below, λ e. quiet') ∙ a) refl
      (rw z (print_none c.ifaces _))
ifaces_printed n (t ∷ ts) rest s q c f l a below quiet quiet' z =
    let past = past_iface n t (ifaces_then ts rest) s f in
    let place = iface_place n s.dev.configs s.iface_index in
    prints_linked (objects_after n (ifaces_then (t ∷ ts) rest) s) q c.desc (t ∷ ts)
      (with_ifaces c place (suc (length ts)))
      (ap (λ o. Objects.config_at o q) (objects_path past.run)
        ∙ linked_ifaces n ts rest past.after q (with_ifaces c place 1) past.fits (past.cfg ∙ l)
            (config_moves n t (ifaces_then ts rest) s q c past l a ∙ link_iface-first place c z)
            (omega (arith, past.block, past.configs)) quiet' (omega arith)
            (omega (arith, f.room, f.ifaces_left, ifaces_in-ifaces_then (t ∷ ts) rest))
        ∙ ap (with_ifaces c place) (omega arith))
      refl (print_ifaces-ifaces_then n (t ∷ ts) rest s f quiet)

-- A new configuration is printed with its interfaces.
pub config_printed :
    (n : Counts) (c : ConfigTree) (rest : List Descriptor) (s : Parse)
    → Fits n (config c.desc ∷ ifaces_then c.ifaces rest) s
    → quiet_iface rest ≡ true
    → quiet_config rest ≡ true
    → PrintsConfig
        (objects_after n (config c.desc ∷ ifaces_then c.ifaces rest) s)
        (config_place n s.dev.configs s.config_index)
        c.desc
        c.ifaces
unfolding parse_config new_config
config_printed n c rest s f quiet quiet' =
    let place = config_place n s.dev.configs s.config_index in
    let address = config_address-config_place n c.desc (ifaces_then c.ifaces rest) s f in
    ifaces_printed n c.ifaces rest (parse_config n c.desc s) place
      (new_config c.desc (s.dev.objects.config_at place))
      (Fits-next n (config c.desc) (ifaces_then c.ifaces rest) s f) address
      (rw address (store_config_same place _ s.dev.objects)) (omega (arith, f.configs_left, f.room))
      quiet quiet' refl
