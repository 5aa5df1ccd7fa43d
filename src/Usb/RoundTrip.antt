-- ===== src/Usb/RoundTrip.antt =====
-- The descriptors that a device sends are the ones that its structures print.
use operating_system_cortex.Base.{
  ℕ, zero, suc, ◌+◌, ◌*◌, ◌^◌, ◌<◌, ◌≡◌, ◌≢◌, refl, ◌∙◌, ap, Bool, true, false, false≢true, List,
  [], ◌∷◌, length, Option, some, ok, bind, arith,
}
use operating_system_cortex.Dlist.{Ptr, null}
use operating_system_cortex.Usb.{Buffer, UsbEp, UsbDev}
use operating_system_cortex.Usb.Descriptors.{
  Counts, Parse, parse_config, parse_iface, parse_ep, desc_mem_size, init_configs, init_ifaces,
  init_eps, usbc_init_descriptors, usbc_alloc_descriptors, with_block, parse_counted, parse_from,
  usbc_parse_descriptors,
}
use operating_system_cortex.Usb.Enumeration.{print_configs}
use operating_system_cortex.Usb.Stream.{
  Descriptor, config, iface, ep, configs_in, counts_of, Holds, Holds-room,
  usbc_verify_descriptors-counts_of,
}
use operating_system_cortex.Usb.Layout.{Nested, parse_one, parse_all, parse_from-parse_all}
use operating_system_cortex.Usb.Block.{LaidOut, counts-LaidOut}
use operating_system_cortex.Usb.Kept.{Fits}
use operating_system_cortex.Usb.Tree.{
  IfaceTree, ConfigTree, eps_then, ifaces_then, descriptors, configs_bytes,
}
use operating_system_cortex.Usb.Printed.{
  print_configs-descriptors, num_configs-descriptors, print_configs_path,
}

Nested-eps_then :
    (c : Bool) (es : List UsbEp) (rest : List Descriptor)
    → Nested c true rest
    → Nested c true (eps_then es rest)
Nested-eps_then c [] rest h = h
Nested-eps_then c (e ∷ es) rest h = (refl, Nested-eps_then c es rest h)

Nested-ifaces_then :
    (i : Bool) (ts : List IfaceTree) (rest : List Descriptor)
    → ((j : Bool) → Nested true j rest)
    → Nested true i (ifaces_then ts rest)
Nested-ifaces_then i [] rest h = h i
Nested-ifaces_then i (t ∷ ts) rest h =
    (refl, Nested-eps_then true t.eps (ifaces_then ts rest) (Nested-ifaces_then true ts rest h))

Nested-descriptors : (c i : Bool) (cs : List ConfigTree) → Nested c i (descriptors cs)
Nested-descriptors c i [] = tt
Nested-descriptors c i (t ∷ cs) =
    Nested-ifaces_then i t.ifaces (descriptors cs) (λ j. Nested-descriptors true j cs)

-- The fields of a device that its configurations have no part in.
abbrev pub SameIdentity : UsbDev → UsbDev → Type 0
SameIdentity d e = (d.desc ≡ e.desc) × (d.address ≡ e.address) × (d.ep0_size ≡ e.ep0_size)

SameIdentity-one :
    (n : Counts) (x : Descriptor) (s : Parse) → SameIdentity (Parse.dev (parse_one n x s)) s.dev
unfolding parse_config parse_iface parse_ep
SameIdentity-one n (config d) s = (refl, refl, refl)
SameIdentity-one n (iface d) s = (refl, refl, refl)
SameIdentity-one n (ep e) s = (refl, refl, refl)

SameIdentity-all :
    (n : Counts) (xs : List Descriptor) (s : Parse)
    → SameIdentity (Parse.dev (parse_all n xs s)) s.dev
SameIdentity-all n [] s = (refl, refl, refl)
SameIdentity-all n (x ∷ xs) s =
    let p = SameIdentity-all n xs (parse_one n x s) in
    let q = SameIdentity-one n x s in (p.0 ∙ q.0, p.1 ∙ q.1, p.2 ∙ q.2)

abbrev SameBlock : UsbDev → UsbDev → Type 0
SameBlock d e = (d.configs ≡ e.configs) × (d.num_configs ≡ e.num_configs) × SameIdentity d e

init_configs-SameBlock : (count : ℕ) (p : Ptr) (d : UsbDev) → SameBlock (init_configs count p d) d
unfolding init_configs
init_configs-SameBlock zero p d = (refl, refl, (refl, refl, refl))
init_configs-SameBlock (suc count) p d = init_configs-SameBlock count _ _

init_ifaces-SameBlock : (count : ℕ) (p : Ptr) (d : UsbDev) → SameBlock (init_ifaces count p d) d
unfolding init_ifaces
init_ifaces-SameBlock zero p d = (refl, refl, (refl, refl, refl))
init_ifaces-SameBlock (suc count) p d = init_ifaces-SameBlock count _ _

init_eps-SameBlock : (count : ℕ) (p : Ptr) (d : UsbDev) → SameBlock (init_eps count p d) d
unfolding init_eps
init_eps-SameBlock zero p d = (refl, refl, (refl, refl, refl))
init_eps-SameBlock (suc count) p d = init_eps-SameBlock count _ _

init_descriptors-SameBlock : (d : UsbDev) (n : Counts) → SameBlock (usbc_init_descriptors d n) d
unfolding usbc_init_descriptors
init_descriptors-SameBlock d n =
    let a = init_configs-SameBlock n.configs d.configs d in
    let b =
      init_ifaces-SameBlock n.ifaces (d.configs + n.configs * 24)
        (init_configs n.configs d.configs d) in
    let c =
      init_eps-SameBlock n.eps (d.configs + n.configs * 24 + n.ifaces * 40)
        (init_ifaces n.ifaces (d.configs + n.configs * 24) (init_configs n.configs d.configs d)) in
    (
      c.0 ∙ b.0 ∙ a.0,
      c.1 ∙ b.1 ∙ a.1,
      (c.2.0 ∙ b.2.0 ∙ a.2.0, c.2.1 ∙ b.2.1 ∙ a.2.1, c.2.2 ∙ b.2.2 ∙ a.2.2),
    )

configs_in-eps_then :
    (es : List UsbEp) (rest : List Descriptor) → configs_in (eps_then es rest) ≡ configs_in rest
configs_in-eps_then [] rest = refl
configs_in-eps_then (e ∷ es) rest = configs_in-eps_then es rest

configs_in-ifaces_then :
    (ts : List IfaceTree) (rest : List Descriptor)
    → configs_in (ifaces_then ts rest) ≡ configs_in rest
configs_in-ifaces_then [] rest = refl
configs_in-ifaces_then (t ∷ ts) rest =
    configs_in-eps_then t.eps (ifaces_then ts rest) ∙ configs_in-ifaces_then ts rest

configs_in-descriptors : (cs : List ConfigTree) → configs_in (descriptors cs) ≡ length cs
configs_in-descriptors [] = refl
configs_in-descriptors (c ∷ cs) =
    ap suc (configs_in-ifaces_then c.ifaces (descriptors cs) ∙ configs_in-descriptors cs)

-- The state in front of the first descriptor.
abbrev start : UsbDev → Counts → Parse
start d n = record {
  dev = usbc_init_descriptors d n;
  config_index = 0;
  iface_index = 0;
  ep_index = 0;
  last_cfg = null;
  last_iface = null;
}

Fits-start :
    (buffer : Buffer) (size : ℕ) (xs : List Descriptor) (d : UsbDev)
    → size < 2 ^ 16
    → Holds buffer size xs 0
    → Fits (counts_of xs) xs (start d (counts_of xs))
Fits-start buffer size xs d b h = record {
  configs_left = omega arith;
  ifaces_left = omega arith;
  eps_left = omega arith;
  room = omega (arith, Holds-room xs 0 h);
}

-- The device's block and its descriptors after the parser.
abbrev pub Received : UsbDev → List ConfigTree → Type 0
Received d cs =
    (d.num_configs ≡ length cs)
    × (print_configs d.num_configs d.configs d.objects ≡ configs_bytes cs)

parse_all-Received :
    (buffer : Buffer) (size : ℕ) (cs : List ConfigTree) (d : UsbDev)
    → size < 2 ^ 16
    → Holds buffer size (descriptors cs) 0
    → d.num_configs ≡ 0
    → Received
        (Parse.dev (
          parse_all
            (counts_of (descriptors cs))
            (descriptors cs)
            (start d (counts_of (descriptors cs)))))
        cs
parse_all-Received buffer size cs d b h z =
    let n = counts_of (descriptors cs) in
    let f = Fits-start buffer size (descriptors cs) d b h in
    let same = init_descriptors-SameBlock d n in
    let counted =
      num_configs-descriptors n cs (start d n) f
        (omega (arith, same.1, z, f.room, configs_in-descriptors cs)) in
    let number : UsbDev.num_configs (Parse.dev (parse_all n (descriptors cs) (start d n)))
        ≡ length cs =
      omega (arith, counted.0, same.1, z) in
    (
      number,
      rw (number, counted.1)
          (print_configs_path (length cs) (omega arith) refl
            ∙ print_configs-descriptors n cs (start d n) f),
    )

parse_counted-start :
    (fuel size : ℕ) (bmalloc : ℕ → Option Ptr) (block : Ptr) (dev : UsbDev) (buffer : Buffer)
    (n : Counts)
    → bmalloc (desc_mem_size n) ≡ some block
    → parse_counted fuel bmalloc dev buffer size (some n)
      ≡ parse_from fuel n buffer size 0
          (start (record dev { configs = block; desc_total_size = desc_mem_size n }) n)
unfolding parse_counted usbc_alloc_descriptors with_block
parse_counted-start fuel size bmalloc block dev buffer n m =
    ap
      (λ o.
        bind (with_block o (desc_mem_size n) dev)
          (λ dev. parse_from fuel n buffer size 0 (start dev n)))
      m

-- The parser accepts a tree of configurations, interfaces and endpoints with other descriptors
-- between them, of less than 2 ^ 16 bytes, and walking the structures that it links from the start
-- of bmalloc's block prints the descriptors in the order in which they were sent, while the device
-- counted no configurations, bmalloc has a block, and the fuel is above the size; its descriptor,
-- address and endpoint size stay. The places that usbc_get_desc_offset gives to the structures lie
-- apart, by the size of each, and inside the block.
pub usbc_parse_descriptors-Received :
    (fuel size : ℕ) (bmalloc : ℕ → Option Ptr) (block : Ptr) (dev : UsbDev) (buffer : Buffer)
    (cs : List ConfigTree)
    → size < 2 ^ 16
    → Holds buffer size (descriptors cs) 0
    → dev.num_configs ≡ 0
    → bmalloc (desc_mem_size (counts_of (descriptors cs))) ≡ some block
    → block ≢ null
    → size < fuel
    → (dev' : UsbDev) × (usbc_parse_descriptors fuel bmalloc dev buffer size ≡ ok (some dev'))
      × Received dev' cs
      × SameIdentity dev' dev
      × (dev'.configs ≡ block)
      × LaidOut (counts_of (descriptors cs))
unfolding usbc_parse_descriptors
usbc_parse_descriptors-Received fuel size bmalloc block dev buffer cs b h z m ne f =
    let n = counts_of (descriptors cs) in
    let d = record dev { configs = block; desc_total_size = desc_mem_size n } in
    let p = SameIdentity-all n (descriptors cs) (start d n) in
    let fits = Fits-start buffer size (descriptors cs) d b h in
    let q = init_descriptors-SameBlock d n in
    (
      Parse.dev (parse_all n (descriptors cs) (start d n)),
      ap (λ r. bind r (parse_counted fuel bmalloc dev buffer size))
            (usbc_verify_descriptors-counts_of fuel buffer size (descriptors cs) (omega arith) h f)
          ∙ parse_counted-start fuel size bmalloc block dev buffer n m
          ∙ parse_from-parse_all fuel n buffer size 0 false false (descriptors cs) (start d n)
              (omega arith) h (Nested-descriptors false false cs)
              (record {
                block = rw (init_descriptors-SameBlock d n).0 ne;
                cfg = λ e. absurd (false≢true e);
                ifc = λ e. absurd (false≢true e);
              })
              (omega arith),
      parse_all-Received buffer size cs d b h z,
      (p.0 ∙ q.2.0, p.1 ∙ q.2.1, p.2 ∙ q.2.2),
      (num_configs-descriptors n cs (start d n) fits
            (omega (arith, q.1, z, fits.room, configs_in-descriptors cs))).1
          ∙ q.0,
      counts-LaidOut n fits.room,
    )
