-- ===== src/Usb/Printed.antt =====
-- What the structures of a device print behind its last descriptor.
use operating_system_cortex.Base.{
  ℕ, ◌+◌, ◌^◌, ◌<◌, ◌≡◌, refl, ◌∙◌, ap, List, [], ◌∷◌, length, u32, arith,
}
use operating_system_cortex.Dlist.{Ptr}
use operating_system_cortex.Usb.{Objects, UsbDev}
use operating_system_cortex.Usb.Descriptors.{Counts, Parse, parse_config}
use operating_system_cortex.Usb.Enumeration.{print_configs}
use operating_system_cortex.Usb.Stream.{Descriptor, config}
use operating_system_cortex.Usb.Layout.{parse_all}
use operating_system_cortex.Usb.Kept.{config_place, Fits, Fits-next, objects_after}
use operating_system_cortex.Usb.Tree.{
  IfaceTree, ConfigTree, ifaces_then, descriptors, configs_bytes, cons_path,
}
use operating_system_cortex.Usb.Forest.{
  past_iface, quiet_iface-descriptors, quiet_config-descriptors, objects_path, append_path,
}
use operating_system_cortex.Usb.Parsing.{config_printed}

-- The state behind the interfaces of a configuration.
record PastIfaces (n : Counts) (xs rest : List Descriptor) (s : Parse) : Type 0 where
  after : Parse
  run : parse_all n xs s ≡ parse_all n rest after
  fits : Fits n rest after
  block : after.dev.configs ≡ s.dev.configs
  num : after.dev.num_configs ≡ s.dev.num_configs
  configs : after.config_index ≡ s.config_index

past_ifaces :
    (n : Counts) (ts : List IfaceTree) (rest : List Descriptor) (s : Parse)
    → Fits n (ifaces_then ts rest) s
    → PastIfaces n (ifaces_then ts rest) rest s
past_ifaces n [] rest s f = record {
  after = s;
  run = refl;
  fits = f;
  block = refl;
  num = refl;
  configs = refl;
}
past_ifaces n (t ∷ ts) rest s f =
    let p = past_iface n t (ifaces_then ts rest) s f in
    let q = past_ifaces n ts rest p.after p.fits in
    record {
      after = q.after;
      run = p.run ∙ q.run;
      fits = q.fits;
      block = q.block ∙ p.block;
      num = q.num ∙ p.num;
      configs = q.configs ∙ p.configs;
    }

past_config :
    (n : Counts) (c : ConfigTree) (rest : List Descriptor) (s : Parse)
    → Fits n (config c.desc ∷ ifaces_then c.ifaces rest) s
    → PastIfaces n (ifaces_then c.ifaces rest) rest (parse_config n c.desc s)
past_config n c rest s f =
    past_ifaces n c.ifaces rest (parse_config n c.desc s)
      (Fits-next n (config c.desc) (ifaces_then c.ifaces rest) s f)

-- What the first steps of a configuration do to the counters.
counters :
    (n : Counts) (d : List ℕ) (s : Parse)
    → (Parse.config_index (parse_config n d s) ≡ u32 (s.config_index + 1))
      × (UsbDev.num_configs (Parse.dev (parse_config n d s)) ≡ u32 (s.dev.num_configs + 1))
      × (UsbDev.configs (Parse.dev (parse_config n d s)) ≡ s.dev.configs)
unfolding parse_config
counters n d s = (refl, refl, refl)

pub print_configs_path :
    (count : ℕ) {p q : Ptr} {o o' : Objects}
    → p ≡ q
    → o ≡ o'
    → print_configs count p o ≡ print_configs count q o'
print_configs_path count e f = rw (e, f) refl

pub print_configs-descriptors :
    (n : Counts) (cs : List ConfigTree) (s : Parse)
    → Fits n (descriptors cs) s
    → print_configs
        (length cs)
        (config_place n s.dev.configs s.config_index)
        (objects_after n (descriptors cs) s)
      ≡ configs_bytes cs
unfolding print_configs
print_configs-descriptors n [] s f = refl
print_configs-descriptors n (c ∷ cs) s f =
    let printed =
      config_printed n c (descriptors cs) s f (quiet_iface-descriptors cs)
        (quiet_config-descriptors cs) in
    let past = past_config n c (descriptors cs) s f in
    let steps = counters n c.desc s in
    cons_path printed.0 (
      append_path printed.1 (
        print_configs_path (length cs)
          (omega (arith, past.block, past.configs, steps.0, steps.2, f.configs_left, f.room))
          (objects_path past.run)
        ∙ print_configs-descriptors n cs past.after past.fits))

-- The counts of configurations and the place of the block.
pub num_configs-descriptors :
    (n : Counts) (cs : List ConfigTree) (s : Parse)
    → Fits n (descriptors cs) s
    → s.dev.num_configs + length cs < 2 ^ 32
    → (UsbDev.num_configs (Parse.dev (parse_all n (descriptors cs) s))
        ≡ s.dev.num_configs + length cs)
      × (UsbDev.configs (Parse.dev (parse_all n (descriptors cs) s)) ≡ s.dev.configs)
num_configs-descriptors n [] s f h = (omega arith, refl)
num_configs-descriptors n (c ∷ cs) s f h =
    let past = past_config n c (descriptors cs) s f in
    let steps = counters n c.desc s in
    let rest =
      num_configs-descriptors n cs past.after past.fits (omega (arith, past.num, steps.1)) in
    (
      ap (λ s. UsbDev.num_configs (Parse.dev s)) past.run
          ∙ rest.0
          ∙ omega (arith, past.num, steps.1),
      ap (λ s. UsbDev.configs (Parse.dev s)) past.run ∙ rest.1 ∙ past.block ∙ steps.2,
    )
