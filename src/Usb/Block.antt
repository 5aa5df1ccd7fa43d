-- ===== src/Usb/Block.antt =====
-- The block of a device: its configurations, then its interfaces, then its endpoints. That they lie
-- apart is what lets a map for each kind of object stand for the bytes of the block.
use operating_system_cortex.Base.{ℕ, ◌+◌, ◌*◌, ◌^◌, ◌<◌, ◌≤◌, arith}
use operating_system_cortex.Usb.{usb_desc_config, usb_desc_iface, usb_desc_ep}
use operating_system_cortex.Usb.Descriptors.{Counts, usbc_get_desc_offset, desc_mem_size}

-- The distance of an object from the start of the block.
abbrev pub place : Counts → (type index : ℕ) → ℕ
place n type index = usbc_get_desc_offset n.configs n.ifaces type index

-- Any two objects of the block lie apart, a configuration having 24 bytes, an interface 40 and an
-- endpoint 12, and each lies within the size for which the block was asked.
pub record LaidOut (n : Counts) : Type 0 where
  pub configs_apart :
      (i j : ℕ) → i < j → j < n.configs → place n usb_desc_config i + 24 ≤ place n usb_desc_config j
  pub ifaces_apart :
      (i j : ℕ) → i < j → j < n.ifaces → place n usb_desc_iface i + 40 ≤ place n usb_desc_iface j
  pub eps_apart : (i j : ℕ) → i < j → j < n.eps → place n usb_desc_ep i + 12 ≤ place n usb_desc_ep j
  pub config_iface :
      (i j : ℕ)
      → i < n.configs
      → j < n.ifaces
      → place n usb_desc_config i + 24 ≤ place n usb_desc_iface j
  pub config_ep :
      (i j : ℕ) → i < n.configs → j < n.eps → place n usb_desc_config i + 24 ≤ place n usb_desc_ep j
  pub iface_ep :
      (i j : ℕ) → i < n.ifaces → j < n.eps → place n usb_desc_iface i + 40 ≤ place n usb_desc_ep j
  pub config_inside : (i : ℕ) → i < n.configs → place n usb_desc_config i + 24 ≤ desc_mem_size n
  pub iface_inside : (i : ℕ) → i < n.ifaces → place n usb_desc_iface i + 40 ≤ desc_mem_size n
  pub ep_inside : (i : ℕ) → i < n.eps → place n usb_desc_ep i + 12 ≤ desc_mem_size n

pub counts-LaidOut : (n : Counts) → n.configs * 24 + n.ifaces * 40 + n.eps * 12 < 2 ^ 32 → LaidOut n
unfolding usbc_get_desc_offset desc_mem_size
counts-LaidOut n room = record {
  configs_apart = λ i j h k. omega (arith, h, k, room);
  ifaces_apart = λ i j h k. omega (arith, h, k, room);
  eps_apart = λ i j h k. omega (arith, h, k, room);
  config_iface = λ i j h k. omega (arith, h, k, room);
  config_ep = λ i j h k. omega (arith, h, k, room);
  iface_ep = λ i j h k. omega (arith, h, k, room);
  config_inside = λ i h. omega (arith, h, room);
  iface_inside = λ i h. omega (arith, h, room);
  ep_inside = λ i h. omega (arith, h, room);
}
