-- ===== src/Usb/Drivers.antt =====
-- kernel/src/usb/usb.c: the driver that is looked for when an interface is found.
use operating_system_cortex.Base.{
  ℕ, Bool, true, false, ◌==◌, ◌&&◌, not, if◌then◌else◌, List, [], ◌∷◌, Option, none, some, test_bit,
}
use operating_system_cortex.Usb.{
  UsbDevId, UsbDriver, UsbIface, UsbDev, id_vendor, id_product, b_device_class, b_device_sub_class,
  b_device_protocol, b_interface_class, b_interface_sub_class, b_interface_protocol,
}

-- `flags & (1 << bit)` asks for a field, and the field differs.
unfoldable pub differs : (flags bit field wanted : ℕ) → Bool
differs flags bit field wanted = test_bit flags bit && not (wanted == field)

unfoldable pub usbc_check_dev_match : UsbDevId → UsbDev → Bool
usbc_check_dev_match id dev =
    if differs id.flags 0 (id_vendor dev.desc) id.vendor_id
    then false
    else if differs id.flags 1 (id_product dev.desc) id.product_id
    then false
    else if differs id.flags 2 (b_device_class dev.desc) id.dev_class
    then false
    else if differs id.flags 3 (b_device_sub_class dev.desc) id.dev_sub_class
    then false
    else if differs id.flags 4 (b_device_protocol dev.desc) id.dev_protocol
    then false
    else true

unfoldable pub usbc_check_iface_match : UsbDevId → UsbIface → Bool
usbc_check_iface_match id iface =
    if differs id.flags 5 (b_interface_class iface.desc) id.iface_class
    then false
    else if differs id.flags 6 (b_interface_sub_class iface.desc) id.iface_sub_class
    then false
    else if differs id.flags 7 (b_interface_protocol iface.desc) id.iface_protocol
    then false
    else true

-- The loop over the identifiers of a driver.
unfoldable pub match_ids : List UsbDevId → UsbDev → UsbIface → Bool
match_ids [] dev iface = false
match_ids (id ∷ ids) dev iface =
    let rest = match_ids ids dev iface in
    if usbc_check_dev_match id dev && usbc_check_iface_match id iface then true else rest

unfoldable pub usbc_check_driver_match : UsbDriver → UsbDev → UsbIface → Bool
usbc_check_driver_match driver dev iface = match_ids driver.dev_ids dev iface

unfoldable pub driver_from : List UsbDriver → UsbDev → UsbIface → Option UsbDriver
driver_from [] dev iface = none
driver_from (driver ∷ drivers) dev iface =
    let rest = driver_from drivers dev iface in
    if usbc_check_driver_match driver dev iface
    then (if driver.connect iface == 0 then none else some driver)
    else rest

-- NULL is `none`.
unfoldable pub usbc_find_driver : List UsbDriver → UsbDev → UsbIface → Option UsbDriver
usbc_find_driver drivers dev iface =
    if iface.assigned == 1 then none else driver_from drivers dev iface
