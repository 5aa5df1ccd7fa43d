-- ===== src/Usb/Stream.antt =====
-- The descriptors that a buffer holds, and what usbc_verify_descriptors makes of them.
use operating_system_cortex.Base.{
  ℕ, zero, suc, ◌+◌, ◌*◌, ◌^◌, ◌<◌, ◌≤◌, ◌≡◌, ◌≢◌, refl, ◌∙◌, ap, fun_ext, ==_self, ne→==_false,
  lt→ltb, le→ltb_false, List, [], ◌∷◌, some, ok, hang, u32, arith,
}
use operating_system_cortex.Usb.{Buffer, UsbEp, usb_desc_config, usb_desc_iface, usb_desc_ep}
use operating_system_cortex.Usb.Descriptors.{
  Counts, no_counts, load_bytes, load_ep, count_descriptor, verify_from, usbc_verify_descriptors,
}

-- A descriptor that is counted; the endpoint is what its copy makes.
pub data Descriptor : Type 0 where
  config : List ℕ → Descriptor
  iface : List ℕ → Descriptor
  ep : UsbEp → Descriptor

abbrev pub type_of : Descriptor → ℕ
type_of (config d) = usb_desc_config
type_of (iface d) = usb_desc_iface
type_of (ep e) = usb_desc_ep

abbrev pub size_of : Descriptor → ℕ
size_of (config d) = 9
size_of (iface d) = 9
size_of (ep e) = 7

abbrev pub Loads : Descriptor → Buffer → ℕ → Type 0
Loads (config d) buffer pos = load_bytes 9 buffer pos ≡ d
Loads (iface d) buffer pos = load_bytes 9 buffer pos ≡ d
Loads (ep e) buffer pos = load_ep buffer pos ≡ e

-- From `pos` to `end` the buffer holds these descriptors, with others between them.
pub data Holds (buffer : Buffer) (end : ℕ) : List Descriptor → ℕ → Type 0 where
  holds_end : Holds buffer end [] end
  holds :
      (x : Descriptor) {xs : List Descriptor} {pos : ℕ}
      → buffer pos ≡ size_of x
      → buffer (pos + 1) ≡ type_of x
      → Loads x buffer pos
      → Holds buffer end xs (pos + size_of x)
      → Holds buffer end (x ∷ xs) pos
  skips :
      {xs : List Descriptor} {pos : ℕ}
      → 0 < buffer pos
      → buffer (pos + 1) ≢ usb_desc_config
      → buffer (pos + 1) ≢ usb_desc_iface
      → buffer (pos + 1) ≢ usb_desc_ep
      → Holds buffer end xs (pos + buffer pos)
      → Holds buffer end xs pos

abbrev pub configs_in : List Descriptor → ℕ
configs_in [] = 0
configs_in (config d ∷ xs) = suc (configs_in xs)
configs_in (iface d ∷ xs) = configs_in xs
configs_in (ep e ∷ xs) = configs_in xs

abbrev pub ifaces_in : List Descriptor → ℕ
ifaces_in [] = 0
ifaces_in (config d ∷ xs) = ifaces_in xs
ifaces_in (iface d ∷ xs) = suc (ifaces_in xs)
ifaces_in (ep e ∷ xs) = ifaces_in xs

abbrev pub eps_in : List Descriptor → ℕ
eps_in [] = 0
eps_in (config d ∷ xs) = eps_in xs
eps_in (iface d ∷ xs) = eps_in xs
eps_in (ep e ∷ xs) = suc (eps_in xs)

abbrev pub counts_of : List Descriptor → Counts
counts_of xs = record { configs = configs_in xs; ifaces = ifaces_in xs; eps = eps_in xs }

-- The descriptors take up room.
pub Holds-room :
    {buffer : Buffer} {end : ℕ} (xs : List Descriptor) (pos : ℕ)
    → Holds buffer end xs pos
    → pos + (configs_in xs * 9 + ifaces_in xs * 9 + eps_in xs * 7) ≤ end
Holds-room xs pos holds_end = omega arith
Holds-room (x ∷ xs) pos (holds (config d) p q l h) = omega (arith, Holds-room xs (pos + 9) h)
Holds-room (x ∷ xs) pos (holds (iface d) p q l h) = omega (arith, Holds-room xs (pos + 9) h)
Holds-room (x ∷ xs) pos (holds (ep d) p q l h) = omega (arith, Holds-room xs (pos + 7) h)
Holds-room {buffer = buffer} xs pos (skips p a b c h) =
    omega (arith, Holds-room xs (pos + buffer pos) h)

pub Holds-below :
    {buffer : Buffer} {end : ℕ} (xs : List Descriptor) (pos : ℕ)
    → Holds buffer end xs pos
    → pos ≤ end
Holds-below xs pos h = omega (arith, Holds-room xs pos h)

abbrev counted : ℕ → ℕ → ℕ → Counts
counted a b c = record { configs = a; ifaces = b; eps = c }

-- The counts with one more descriptor.
abbrev count_one : Descriptor → Counts → Counts
count_one (config d) n = record n { configs = u32 (n.configs + 1) }
count_one (iface d) n = record n { ifaces = u32 (n.ifaces + 1) }
count_one (ep e) n = record n { eps = u32 (n.eps + 1) }

abbrev count_all : List Descriptor → Counts → Counts
count_all [] n = n
count_all (x ∷ xs) n = count_all xs (count_one x n)

count_descriptor-size_of :
    (x : Descriptor) (n : Counts)
    → count_descriptor (type_of x) (size_of x) n ≡ some (count_one x n)
unfolding count_descriptor
count_descriptor-size_of (config d) n = refl
count_descriptor-size_of (iface d) n = refl
count_descriptor-size_of (ep e) n = refl

count_descriptor-other :
    (type size : ℕ) (n : Counts)
    → type ≢ usb_desc_config
    → type ≢ usb_desc_iface
    → type ≢ usb_desc_ep
    → count_descriptor type size n ≡ some n
unfolding count_descriptor
count_descriptor-other type size n a b c =
    rw
      (
        ne→==_false type usb_desc_config a,
        ne→==_false type usb_desc_iface b,
        ne→==_false type usb_desc_ep c,
      )
      refl

-- The address of the next descriptor does not wrap.
pub u32_small : (n : ℕ) → n < 2 ^ 32 → u32 n ≡ n
u32_small n h = omega arith

verify_from-counted :
    (fuel : ℕ) (buffer : Buffer) (end pos : ℕ) (n m : Counts)
    → pos < end
    → pos + buffer pos < 2 ^ 32
    → count_descriptor (buffer (pos + 1)) (buffer pos) n ≡ some m
    → verify_from (suc fuel) buffer end pos n ≡ verify_from fuel buffer end (pos + buffer pos) m
unfolding verify_from
verify_from-counted fuel buffer end pos n m h k e =
    rw (lt→ltb pos end h, e, u32_small (pos + buffer pos) k) refl

pub size_of-positive : (x : Descriptor) → 0 < size_of x
size_of-positive (config d) = omega arith
size_of-positive (iface d) = omega arith
size_of-positive (ep e) = omega arith

verify_from-Holds :
    (fuel : ℕ) (buffer : Buffer) (end pos : ℕ) (xs : List Descriptor) (n : Counts)
    → end < 2 ^ 32
    → Holds buffer end xs pos
    → end < pos + fuel
    → verify_from fuel buffer end pos n ≡ ok (some (count_all xs n))
unfolding verify_from
verify_from-Holds zero buffer end pos xs n b h f = absurd (omega (arith, Holds-below xs pos h))
verify_from-Holds (suc fuel) buffer end pos [] n b holds_end f =
    rw (le→ltb_false end end (omega arith), ==_self end) refl
verify_from-Holds (suc fuel) buffer end pos (y ∷ xs) n b (holds x p q l h) f =
    verify_from-counted fuel buffer end pos n (count_one x n)
      (omega (arith, size_of-positive x, Holds-below xs (pos + size_of x) h))
      (omega (arith, p, Holds-below xs (pos + size_of x) h))
      (rw (p, q) (count_descriptor-size_of x n))
    ∙ rw p (
        verify_from-Holds fuel buffer end (pos + size_of x) xs (count_one x n) b h
          (omega (arith, size_of-positive x)))
verify_from-Holds (suc fuel) buffer end pos xs n b (skips p i j k h) f =
    verify_from-counted fuel buffer end pos n n (omega (arith, Holds-below xs (pos + buffer pos) h))
      (omega (arith, Holds-below xs (pos + buffer pos) h))
      (count_descriptor-other (buffer (pos + 1)) (buffer pos) n i j k)
    ∙ verify_from-Holds fuel buffer end (pos + buffer pos) xs n b h (omega arith)

Counts-path : {a b c d e f : ℕ} → a ≡ b → c ≡ d → e ≡ f → counted a c e ≡ counted b d f
Counts-path p q r = rw (p, q, r) refl

count_all-counts :
    (xs : List Descriptor) (n : Counts)
    → n.configs + configs_in xs < 2 ^ 32
    → n.ifaces + ifaces_in xs < 2 ^ 32
    → n.eps + eps_in xs < 2 ^ 32
    → count_all xs n ≡ record {
      configs = n.configs + configs_in xs;
      ifaces = n.ifaces + ifaces_in xs;
      eps = n.eps + eps_in xs;
    }
count_all-counts [] n a b c = Counts-path (omega arith) (omega arith) (omega arith)
count_all-counts (config d ∷ xs) n a b c =
    count_all-counts xs (count_one (config d) n) (omega arith) (omega arith) (omega arith)
    ∙ Counts-path (omega arith) (omega arith) (omega arith)
count_all-counts (iface d ∷ xs) n a b c =
    count_all-counts xs (count_one (iface d) n) (omega arith) (omega arith) (omega arith)
    ∙ Counts-path (omega arith) (omega arith) (omega arith)
count_all-counts (ep e ∷ xs) n a b c =
    count_all-counts xs (count_one (ep e) n) (omega arith) (omega arith) (omega arith)
    ∙ Counts-path (omega arith) (omega arith) (omega arith)

-- A buffer that holds descriptors is accepted, with their numbers.
pub usbc_verify_descriptors-counts_of :
    (fuel : ℕ) (buffer : Buffer) (size : ℕ) (xs : List Descriptor)
    → size < 2 ^ 32
    → Holds buffer size xs 0
    → size < fuel
    → usbc_verify_descriptors fuel buffer size ≡ ok (some (counts_of xs))
unfolding usbc_verify_descriptors
usbc_verify_descriptors-counts_of fuel buffer size xs b h f =
    verify_from-Holds fuel buffer size 0 xs no_counts b h (omega arith)
    ∙ ap (λ n. ok (some n))
        (count_all-counts xs no_counts (omega (arith, Holds-room xs 0 h))
            (omega (arith, Holds-room xs 0 h)) (omega (arith, Holds-room xs 0 h))
          ∙ Counts-path (omega arith) (omega arith) (omega arith))

verify_from-stuck :
    (fuel : ℕ) (buffer : Buffer) (size last pos : ℕ) (xs : List Descriptor) (n : Counts)
    → size < 2 ^ 32
    → last < size
    → buffer last ≡ 0
    → count_descriptor (buffer (last + 1)) 0 ≡ some
    → Holds buffer last xs pos
    → verify_from fuel buffer size pos n ≡ hang
unfolding verify_from
verify_from-stuck zero buffer size last pos xs n b l z o h = refl
verify_from-stuck (suc fuel) buffer size last pos [] n b l z o holds_end =
    verify_from-counted fuel buffer size last n n l (omega arith) (rw (z, o) refl)
    ∙ (ap (λ p. verify_from fuel buffer size p n) (omega arith)
        ∙ verify_from-stuck fuel buffer size last last [] n b l z o holds_end)
verify_from-stuck (suc fuel) buffer size last pos (y ∷ xs) n b l z o (holds x p q k h) =
    verify_from-counted fuel buffer size pos n (count_one x n)
      (omega (arith, Holds-below xs (pos + size_of x) h))
      (omega (arith, p, Holds-below xs (pos + size_of x) h))
      (rw (p, q) (count_descriptor-size_of x n))
    ∙ rw p (verify_from-stuck fuel buffer size last (pos + size_of x) xs (count_one x n) b l z o h)
verify_from-stuck (suc fuel) buffer size last pos xs n b l z o (skips p i j k h) =
    verify_from-counted fuel buffer size pos n n
      (omega (arith, Holds-below xs (pos + buffer pos) h))
      (omega (arith, Holds-below xs (pos + buffer pos) h))
      (count_descriptor-other (buffer (pos + 1)) (buffer pos) n i j k)
    ∙ verify_from-stuck fuel buffer size last (pos + buffer pos) xs n b l z o h

-- Where a descriptor of a type that is not counted has the length 0, behind well-formed ones and
-- before the end, the verification does not end, on any fuel.
pub usbc_verify_descriptors-hang :
    (fuel : ℕ) (buffer : Buffer) (size last : ℕ) (xs : List Descriptor)
    → size < 2 ^ 32
    → Holds buffer last xs 0
    → last < size
    → buffer last ≡ 0
    → buffer (last + 1) ≢ usb_desc_config
    → buffer (last + 1) ≢ usb_desc_iface
    → buffer (last + 1) ≢ usb_desc_ep
    → usbc_verify_descriptors fuel buffer size ≡ hang
unfolding usbc_verify_descriptors
usbc_verify_descriptors-hang fuel buffer size last xs b h l z i j k =
    verify_from-stuck fuel buffer size last 0 xs no_counts b l z
      (fun_ext (λ n. count_descriptor-other (buffer (last + 1)) 0 n i j k)) h
