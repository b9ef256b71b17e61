-- ===== src/Pci/Scan.antt =====
-- The loops of kernel/x86_64/buses/pci.c over buses, devices and functions, and over drivers.
pub mod Tables
pub mod Sequences
pub mod Found
mod Tests
use fesos.Prelude.{
  ℕ, zero, suc, ◌+◌, ◌-◌, ◌*◌, ◌/◌, ◌%◌, ◌^◌, Bool, true, false, ◌&&◌, Option, none, some, List, [],
  ◌∷◌, ◌==◌, ltb, if◌then◌else◌,
}
use fesos.Pci.{PciHeader, PciDevice, DriverCodes, PciDriver, Slot, Registry, Pci, PciApi, matches}

-- The header from the first four registers.
pub header_of : ℕ → ℕ → ℕ → ℕ → PciHeader
header_of r0 r1 r2 r3 = record {
  vendor_id = r0 % 2 ^ 16;
  device_id = r0 / 2 ^ 16 % 2 ^ 16;
  command = r1 % 2 ^ 16;
  status = r1 / 2 ^ 16 % 2 ^ 16;
  revision_id = r2 % 2 ^ 8;
  prog_if = r2 / 2 ^ 8 % 2 ^ 8;
  subclass = r2 / 2 ^ 16 % 2 ^ 8;
  class_code = r2 / 2 ^ 24 % 2 ^ 8;
  cache_line_size = r3 % 2 ^ 8;
  latency_timer = r3 / 2 ^ 8 % 2 ^ 8;
  header_type = r3 / 2 ^ 16 % 2 ^ 8;
  bist = r3 / 2 ^ 24 % 2 ^ 8;
}

-- `function == 0 && (header.header_type & 0x80)`
pub last_function : ℕ → PciHeader → Bool
last_function function header = function == 0 && header.header_type / 2 ^ 7 % 2 == 1

-- What the device has from its header.
pub device_of : ℕ → ℕ → ℕ → PciHeader → List ℕ → PciDevice
device_of bus device function header bars = record {
  bus = bus % 2 ^ 8;
  device = device;
  function = function;
  vendor_id = header.vendor_id;
  device_id = header.device_id;
  class_code = header.class_code;
  subclass = header.subclass;
  prog_if = header.prog_if;
  bars = bars;
}

module _ {World : Type 0} (api : PciApi World) where
  pub pci_get_header : ℕ → ℕ → ℕ → World → PciHeader × World
  unfolding header_of
  pci_get_header bus device function w0 =
      let (r0, w1) = api.read (bus % 2 ^ 8) device function 0 4 w0 in
      let (r1, w2) = api.read (bus % 2 ^ 8) device function 4 4 w1 in
      let (r2, w3) = api.read (bus % 2 ^ 8) device function 8 4 w2 in
      let (r3, w4) = api.read (bus % 2 ^ 8) device function 12 4 w3 in (header_of r0 r1 r2 r3, w4)

  -- The registers from index i on, `left` of them.
  pub read_bars : ℕ → ℕ → ℕ → ℕ → ℕ → World → List ℕ × World
  read_bars zero bus device function i w = ([], w)
  read_bars (suc left) bus device function i w =
      let (bar, w1) = api.read (bus % 2 ^ 8) device function (0x10 + i * 4) 4 w in
      let (bars, w2) = read_bars left bus device function (i + 1) w1 in (bar ∷ bars, w2)

  -- pci_read_config and pci_write_config
  pub pci_read_config : PciDevice → ℕ → ℕ → World → ℕ × World
  pci_read_config d offset size w = api.read d.bus d.device d.function offset size w

  pub pci_write_config : PciDevice → ℕ → ℕ → ℕ → World → World
  pci_write_config d offset value size w = api.write d.bus d.device d.function offset value size w

  module _ (class_code subclass : ℕ) where
    -- The innermost loop of pci_find_device, with the rounds that are left.
    pub find_functions : ℕ → ℕ → ℕ → ℕ → World → Option PciDevice × World
    unfolding pci_get_header read_bars last_function device_of
    find_functions zero bus device function w = (none, w)
    find_functions (suc left) bus device function w =
        let (header, w1) = pci_get_header bus device function w in
        let go_on = find_functions left bus device (function + 1) w1 in
        elim (header.vendor_id == 0xFFFF) [
          | true ↦ go_on
          | false ↦ elim (header.class_code == class_code && header.subclass == subclass) [
            | true ↦
                let (bars, w2) = read_bars 6 bus device function 0 w1 in
                (some (device_of bus device function header bars), w2)
            | false ↦ elim (last_function function header) [ true ↦ (none, w1) | false ↦ go_on ]
          ]
        ]

    pub find_devices : ℕ → ℕ → ℕ → World → Option PciDevice × World
    unfolding find_functions
    find_devices zero bus device w = (none, w)
    find_devices (suc left) bus device w =
        let (found, w1) = find_functions 8 bus device 0 w in
        elim found [ some d ↦ (some d, w1) | none ↦ find_devices left bus (device + 1) w1 ]

    pub find_buses : ℕ → ℕ → World → Option PciDevice × World
    unfolding find_devices
    find_buses zero bus w = (none, w)
    find_buses (suc left) bus w =
        let (found, w1) = find_devices 32 bus 0 w in
        elim found [ some d ↦ (some d, w1) | none ↦ find_buses left (bus + 1) w1 ]

    -- `none` for the result 0.
    pub pci_find_device : World → Option PciDevice × World
    pci_find_device w = find_buses 256 0 w

  -- The device at index `slot` gets driver i, and the driver's init runs.
  pub bind_driver : ℕ → ℕ → Pci World → Pci World
  bind_driver i slot s =
      let device = (s.pci_devices slot).device in
      record s {
        pci_devices = λ j.
            if j == slot then record (s.pci_devices slot) { driver = some i } else s.pci_devices j;
        world = ((s.pci_driver_registry.drivers i).init device s.world).1;
      }

  -- The loop over the drivers from i on, with those that are left.
  pub bind_drivers : ℕ → ℕ → ℕ → Pci World → Pci World
  unfolding bind_driver matches
  bind_drivers zero i slot s = s
  bind_drivers (suc left) i slot s = bind_drivers left (i + 1) slot (
      if matches (s.pci_driver_registry.drivers i).driver_codes (s.pci_devices slot).device
      then bind_driver i slot s
      else s)

  -- A new entry of the table.
  pub add_device : PciDevice → World → Pci World → Pci World
  add_device d w s = record s {
    world = w;
    pci_devices = λ j.
        if j == s.pci_devices_count
        then record (s.pci_devices s.pci_devices_count) { device = d }
        else s.pci_devices j;
    pci_devices_count = s.pci_devices_count + 1;
  }

  -- The loops of pci_discover; the result is whether the table is full, which ends all of them.
  pub discover_functions : ℕ → ℕ → ℕ → ℕ → Pci World → Bool × Pci World
  unfolding pci_get_header read_bars device_of last_function add_device bind_drivers
  discover_functions zero bus device function s = (false, s)
  discover_functions (suc left) bus device function s =
      let (header, w1) = pci_get_header bus device function s.world in
      let (bars, w2) = read_bars 6 bus device function 0 w1 in
      let bound =
        bind_drivers s.pci_driver_registry.count 0 s.pci_devices_count
          (add_device (device_of bus device function header bars) w2 s) in
      elim (header.vendor_id == 0xFFFF) [
        | true ↦ discover_functions left bus device (function + 1) (record s { world = w1 })
        | false ↦ elim (ltb s.pci_devices_count 64) [
          | false ↦ (true, record s { world = w1 })
          | true ↦ elim (last_function function header) [
            | true ↦ (false, bound)
            | false ↦ discover_functions left bus device (function + 1) bound
          ]
        ]
      ]

  pub discover_devices : ℕ → ℕ → ℕ → Pci World → Bool × Pci World
  unfolding discover_functions
  discover_devices zero bus device s = (false, s)
  discover_devices (suc left) bus device s =
      let (full, s1) = discover_functions 8 bus device 0 s in
      elim full [ true ↦ (true, s1) | false ↦ discover_devices left bus (device + 1) s1 ]

  pub discover_buses : ℕ → ℕ → Pci World → Bool × Pci World
  unfolding discover_devices
  discover_buses zero bus s = (false, s)
  discover_buses (suc left) bus s =
      let (full, s1) = discover_devices 32 bus 0 s in
      elim full [ true ↦ (true, s1) | false ↦ discover_buses left (bus + 1) s1 ]

  pub pci_discover : Pci World → Pci World
  pci_discover s = (discover_buses 256 0 s).1

  -- The loop of pci_init_unbound_devices from device j on, with those that are left.
  pub init_unbound : ℕ → ℕ → Pci World → Pci World
  unfolding bind_drivers
  init_unbound zero j s = s
  init_unbound (suc left) j s = init_unbound left (j + 1) (elim (s.pci_devices j).driver [
    | some i ↦ s
    | none ↦ bind_drivers s.pci_driver_registry.count 0 j s
  ])

  pub pci_init_unbound_devices : Pci World → Pci World
  unfolding init_unbound
  pci_init_unbound_devices s = init_unbound s.pci_devices_count 0 s
