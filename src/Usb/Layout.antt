-- ===== src/Usb/Layout.antt =====
-- The loop of usbc_parse_descriptors, as one step for each descriptor that the buffer holds.
use operating_system_cortex.Base.{
  ℕ, zero, suc, ◌+◌, ◌^◌, ◌<◌, ◌≡◌, ◌≢◌, refl, ◌∙◌, Bool, true, ne→==_false, lt→ltb, le→ltb_false,
  List, [], ◌∷◌, some, ok, arith,
}
use operating_system_cortex.Dlist.{null}
use operating_system_cortex.Usb.{Buffer, UsbEp, usb_desc_config, usb_desc_iface, usb_desc_ep}
use operating_system_cortex.Usb.Descriptors.{
  Counts, Parse, config_address, iface_address, parse_config, parse_iface, parse_ep,
  parse_descriptor, parse_from,
}
use operating_system_cortex.Usb.Stream.{
  Descriptor, config, iface, ep, type_of, size_of, Loads, Holds, holds_end, holds, skips,
  Holds-below, u32_small, size_of-positive,
}

-- An interface follows a configuration, and an endpoint an interface.
abbrev pub Nested : (has_config has_iface : Bool) → List Descriptor → Type 0
Nested c i [] = Unit {0}
Nested c i (config d ∷ xs) = Nested true i xs
Nested c i (iface d ∷ xs) = (c ≡ true) × Nested c true xs
Nested c i (ep e ∷ xs) = (i ≡ true) × Nested c i xs

abbrev pub parse_one : Counts → Descriptor → Parse → Parse
parse_one n (config d) s = parse_config n d s
parse_one n (iface d) s = parse_iface n d s
parse_one n (ep e) s = parse_ep n e s

abbrev pub parse_all : Counts → List Descriptor → Parse → Parse
parse_all n [] s = s
parse_all n (x ∷ xs) s = parse_all n xs (parse_one n x s)

-- The pointers to the last configuration and interface are set where there is one.
pub record Linked (c i : Bool) (s : Parse) : Type 0 where
  pub block : s.dev.configs ≢ null
  pub cfg : c ≡ true → s.last_cfg ≢ null
  pub ifc : i ≡ true → s.last_iface ≢ null

offset_ne : (p o : ℕ) → p ≢ null → p + o ≢ null
offset_ne p o h = ground arith

Linked-config :
    (n : Counts) (d : List ℕ) (c i : Bool) (s : Parse)
    → Linked c i s
    → Linked true i (parse_config n d s)
unfolding parse_config config_address
Linked-config n d c i s l = record {
  block = l.block;
  cfg = λ e. offset_ne s.dev.configs _ l.block;
  ifc = l.ifc;
}

Linked-iface :
    (n : Counts) (d : List ℕ) (c i : Bool) (s : Parse)
    → Linked c i s
    → Linked c true (parse_iface n d s)
unfolding parse_iface iface_address
Linked-iface n d c i s l = record {
  block = l.block;
  cfg = l.cfg;
  ifc = λ e. offset_ne s.dev.configs _ l.block;
}

Linked-ep :
    (n : Counts) (e : UsbEp) (c i : Bool) (s : Parse) → Linked c i s → Linked c i (parse_ep n e s)
unfolding parse_ep
Linked-ep n e c i s l = record { block = l.block; cfg = l.cfg; ifc = l.ifc }

parse_descriptor-one :
    (n : Counts) (buffer : Buffer) (pos : ℕ) (x : Descriptor) (c i : Bool) (xs : List Descriptor)
    (s : Parse)
    → buffer (pos + 1) ≡ type_of x
    → Loads x buffer pos
    → Nested c i (x ∷ xs)
    → Linked c i s
    → parse_descriptor n buffer pos s ≡ some (parse_one n x s)
unfolding parse_descriptor
parse_descriptor-one n buffer pos (config d) c i xs s t l w k = rw (t, l) refl
parse_descriptor-one n buffer pos (iface d) c i xs s t l w k =
    rw (t, l, ne→==_false s.last_cfg null (k.cfg w.0)) refl
parse_descriptor-one n buffer pos (ep d) c i xs s t l w k =
    rw (t, l, ne→==_false s.last_iface null (k.ifc w.0)) refl

parse_descriptor-other :
    (n : Counts) (buffer : Buffer) (pos : ℕ) (s : Parse)
    → buffer (pos + 1) ≢ usb_desc_config
    → buffer (pos + 1) ≢ usb_desc_iface
    → buffer (pos + 1) ≢ usb_desc_ep
    → parse_descriptor n buffer pos s ≡ some s
unfolding parse_descriptor
parse_descriptor-other n buffer pos s a b c =
    rw
      (
        ne→==_false (buffer (pos + 1)) usb_desc_config a,
        ne→==_false (buffer (pos + 1)) usb_desc_iface b,
        ne→==_false (buffer (pos + 1)) usb_desc_ep c,
      )
      refl

parse_from-parsed :
    (fuel : ℕ) (n : Counts) (buffer : Buffer) (end pos : ℕ) (s s' : Parse)
    → pos < end
    → pos + buffer pos < 2 ^ 32
    → parse_descriptor n buffer pos s ≡ some s'
    → parse_from (suc fuel) n buffer end pos s ≡ parse_from fuel n buffer end (pos + buffer pos) s'
unfolding parse_from
parse_from-parsed fuel n buffer end pos s s' h k e =
    rw (lt→ltb pos end h, e, u32_small (pos + buffer pos) k) refl

Nested-next :
    (n : Counts) (x : Descriptor) (c i : Bool) (xs : List Descriptor) (s : Parse)
    → Nested c i (x ∷ xs)
    → Linked c i s
    → (c' : Bool) × (i' : Bool) × Nested c' i' xs × Linked c' i' (parse_one n x s)
Nested-next n (config d) c i xs s w k = (true, i, w, Linked-config n d c i s k)
Nested-next n (iface d) c i xs s w k = (c, true, w.1, Linked-iface n d c i s k)
Nested-next n (ep d) c i xs s w k = (c, i, w.1, Linked-ep n d c i s k)

pub parse_from-parse_all :
    (fuel : ℕ) (n : Counts) (buffer : Buffer) (end pos : ℕ) (c i : Bool) (xs : List Descriptor)
    (s : Parse)
    → end < 2 ^ 32
    → Holds buffer end xs pos
    → Nested c i xs
    → Linked c i s
    → end < pos + fuel
    → parse_from fuel n buffer end pos s ≡ ok (some (Parse.dev (parse_all n xs s)))
unfolding parse_from
parse_from-parse_all zero n buffer end pos c i xs s b h w k f =
    absurd (omega (arith, Holds-below xs pos h))
parse_from-parse_all (suc fuel) n buffer end pos c i [] s b holds_end w k f =
    rw (le→ltb_false end end (omega arith)) refl
parse_from-parse_all (suc fuel) n buffer end pos c i (y ∷ xs) s b (holds x p q l h) w k f =
    let next = Nested-next n x c i xs s w k in
    parse_from-parsed fuel n buffer end pos s (parse_one n x s)
      (omega (arith, size_of-positive x, Holds-below xs (pos + size_of x) h))
      (omega (arith, p, Holds-below xs (pos + size_of x) h))
      (parse_descriptor-one n buffer pos x c i xs s q l w k)
    ∙ rw p (
        parse_from-parse_all fuel n buffer end (pos + size_of x) next.0 next.1 xs (parse_one n x s)
          b h next.2 next.3 (omega (arith, size_of-positive x)))
parse_from-parse_all (suc fuel) n buffer end pos c i xs s b (skips p t u v h) w k f =
    parse_from-parsed fuel n buffer end pos s s (omega (arith, Holds-below xs (pos + buffer pos) h))
      (omega (arith, Holds-below xs (pos + buffer pos) h))
      (parse_descriptor-other n buffer pos s t u v)
    ∙ parse_from-parse_all fuel n buffer end (pos + buffer pos) c i xs s b h w k (omega arith)
