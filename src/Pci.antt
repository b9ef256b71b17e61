-- ===== src/Pci.antt =====
-- The PCI bus, kernel/x86_64/buses/pci.c, and the registry of its drivers, kernel/x86_64/kernel/drivers.c:
-- reads and writes of configuration space, the search for a device, and the table of devices with
-- their drivers. Port input and output and what a driver's init does act on a world that is a
-- parameter; an init is given the device and leaves the tables alone. A pointer to a driver is its
-- index in the registry. Log messages are left out.
pub mod Scan
use fesos.Prelude.{
  ℕ, zero, suc, ◌+◌, ◌-◌, ◌*◌, ◌/◌, ◌%◌, ◌^◌, Bool, true, false, not, ◌&&◌, ◌||◌, Option, none,
  some, List, [], ◌∷◌, ◌==◌, ltb, if◌then◌else◌,
}
use fesos.Machine.{error}

-- pci_header_t
pub record PciHeader : Type 0 where
  pub vendor_id : ℕ
  pub device_id : ℕ
  pub command : ℕ
  pub status : ℕ
  pub revision_id : ℕ
  pub prog_if : ℕ
  pub subclass : ℕ
  pub class_code : ℕ
  pub cache_line_size : ℕ
  pub latency_timer : ℕ
  pub header_type : ℕ
  pub bist : ℕ

-- pci_device_t
pub record PciDevice : Type 0 where
  pub bus : ℕ
  pub device : ℕ
  pub function : ℕ
  pub vendor_id : ℕ
  pub device_id : ℕ
  pub class_code : ℕ
  pub subclass : ℕ
  pub prog_if : ℕ
  pub bars : List ℕ

-- pci_driver_type_t with the union of codes.
pub data DriverCodes : Type 0 where
  class_driver : (class_code subclass prog_if : ℕ) → DriverCodes
  specific_device_driver : (device_id vendor_id : ℕ) → DriverCodes

module _ (World : Type 0) where
  -- pci_driver_t, less the name.
  pub record PciDriver : Type 0 where
    pub driver_codes : DriverCodes
    pub init : PciDevice → World → ℕ × World

  -- pci_device_slot_t
  pub record Slot : Type 0 where
    pub device : PciDevice
    pub driver : Option ℕ

  -- pci_driver_registry_t
  pub record Registry : Type 0 where
    pub drivers : ℕ → PciDriver
    pub count : ℕ

  -- The static variables of pci.c and drivers.c, and the world.
  pub record Pci : Type 0 where
    pub world : World
    pub pci_devices : ℕ → Slot
    pub pci_devices_count : ℕ
    pub pci_driver_registry : Registry

  -- pci_api_t
  pub record PciApi : Type 0 where
    pub read : ℕ → ℕ → ℕ → ℕ → ℕ → World → ℕ × World
    pub write : ℕ → ℕ → ℕ → ℕ → ℕ → ℕ → World → World

  -- The functions of include/drivers/io.h.
  pub record Ports : Type 0 where
    pub outb : ℕ → ℕ → World → World
    pub outw : ℕ → ℕ → World → World
    pub outl : ℕ → ℕ → World → World
    pub inb : ℕ → World → ℕ × World
    pub inw : ℕ → World → ℕ × World
    pub inl : ℕ → World → ℕ × World

-- The address of a register, whose parts are apart.
pub pci_address : ℕ → ℕ → ℕ → ℕ → ℕ
pci_address bus device function offset =
    0x80000000 + bus * 2 ^ 16 + device % 32 * 2 ^ 11 + function % 8 * 2 ^ 8 + offset / 4 % 64 * 4

-- The test of a driver against a device.
pub matches : DriverCodes → PciDevice → Bool
matches (class_driver class_code subclass prog_if) d =
    class_code == d.class_code && subclass == d.subclass && prog_if == d.prog_if
matches (specific_device_driver device_id vendor_id) d =
    device_id == d.device_id && vendor_id == d.vendor_id

module _ {World : Type 0} where
  module _ (ports : Ports World) where
    pub legacy_pci_read : ℕ → ℕ → ℕ → ℕ → ℕ → World → ℕ × World
    unfolding pci_address
    legacy_pci_read bus device function offset size w =
        let w' = ports.outl 0xCF8 (pci_address bus device function offset) w in
        if size == 1
        then ports.inb (0xCFC + offset % 4) w'
        else if size == 2
        then ports.inw (0xCFC + offset / 2 % 2 * 2) w'
        else ports.inl 0xCFC w'

    -- After a write of one or two bytes, the code goes on to the write of four.
    pub legacy_pci_write : ℕ → ℕ → ℕ → ℕ → ℕ → ℕ → World → World
    unfolding pci_address
    legacy_pci_write bus device function offset value size w =
        let w1 = ports.outl 0xCF8 (pci_address bus device function offset) w in
        let w2 = if size == 1 then ports.outb (0xCFC + offset % 4) (value % 2 ^ 8) w1 else w1 in
        let w3 =
          if size == 2 then ports.outw (0xCFC + offset / 2 % 2 * 2) (value % 2 ^ 16) w2 else w2 in
        ports.outl 0xCFC value w3

    -- What pci_init makes of pci_api.
    pub pci_init : PciApi World
    unfolding legacy_pci_read legacy_pci_write
    pci_init = record { read = legacy_pci_read; write = legacy_pci_write }

  -- The registry takes a driver while it has fewer than 64.
  pub drivers_pci_register : PciDriver World → Registry World → ℕ × Registry World
  unfolding error
  drivers_pci_register driver r =
      if ltb r.count 64
      then (
        0,
        record r {
          drivers = λ i. if i == r.count then driver else r.drivers i;
          count = r.count + 1;
        },
      )
      else (error 1, r)
