-- ===== src/Pci/Scan/Tables.antt =====
-- The tables of kernel/x86_64/buses/pci.c and kernel/x86_64/kernel/drivers.c over all operations.
use fesos.Prelude.{
  ℕ, zero, suc, ◌+◌, ◌≤◌, ◌<◌, ◌≡◌, refl, ap, ◌∙◌, true, Bool-cases, inl, inr, ltb→lt, Option, none,
  some, ◌==◌, ltb, if◌then◌else◌, arith,
}
use fesos.Pci.{PciDevice, PciDriver, Registry, Pci, PciApi, matches, drivers_pci_register}
use fesos.Pci.Scan.{
  pci_get_header, read_bars, device_of, last_function, bind_driver, bind_drivers, add_device,
  discover_functions, discover_devices, discover_buses, init_unbound,
}

-- Neither table has more than 64 entries, entries that are not in use have no driver, and the driver
-- of an entry is registered and is for its device.
pub record IsValid {World : Type 0} (s : Pci World) : Type 0 where
  pub room : s.pci_devices_count ≤ 64
  pub registry_room : s.pci_driver_registry.count ≤ 64
  pub unbound : (j : ℕ) → s.pci_devices_count ≤ j → (s.pci_devices j).driver ≡ none
  pub registered : (j i : ℕ) → (s.pci_devices j).driver ≡ some i → i < s.pci_driver_registry.count
  pub bound :
      (j i : ℕ)
      → (s.pci_devices j).driver ≡ some i
      → matches (s.pci_driver_registry.drivers i).driver_codes (s.pci_devices j).device ≡ true

module _ {World : Type 0} where
  bind_driver-IsValid :
      (api : PciApi World) (i slot : ℕ) (s : Pci World)
      → slot < s.pci_devices_count
      → i < s.pci_driver_registry.count
      → matches (s.pci_driver_registry.drivers i).driver_codes (s.pci_devices slot).device ≡ true
      → IsValid s
      → IsValid (bind_driver api i slot s)
  unfolding bind_driver
  bind_driver-IsValid api i slot s lt reg fits v = record {
    room = v.room;
    registry_room = v.registry_room;
    unbound = λ j le. ground (arith, v.unbound j);
    registered = λ j k e. ground (arith, v.registered j k);
    bound = λ j k e. ground (arith, v.bound j k);
  }

  -- A valid state with as many devices as before, and the same registry.
  pub record Kept (s s' : Pci World) : Type 0 where
    pub valid : IsValid s'
    pub count : s'.pci_devices_count ≡ s.pci_devices_count
    pub registry : s'.pci_driver_registry ≡ s.pci_driver_registry

  bind_driver-Kept :
      (api : PciApi World) (i slot : ℕ) (s : Pci World)
      → slot < s.pci_devices_count
      → i < s.pci_driver_registry.count
      → IsValid s
      → Kept s (
          if matches (s.pci_driver_registry.drivers i).driver_codes (s.pci_devices slot).device
          then bind_driver api i slot s
          else s)
  unfolding bind_driver
  bind_driver-Kept api i slot s lt reg v =
      elim (Bool-cases
        (matches (s.pci_driver_registry.drivers i).driver_codes (s.pci_devices slot).device)) [
          | inl fits ↦ rw fits (record {
            valid = bind_driver-IsValid api i slot s lt reg fits v;
            count = refl;
            registry = refl;
          })
          | inr other ↦ rw other (record { valid = v; count = refl; registry = refl })
        ]

  bind_drivers-Kept :
      (api : PciApi World) (left i slot : ℕ) (s : Pci World)
      → slot < s.pci_devices_count
      → i + left ≤ s.pci_driver_registry.count
      → IsValid s
      → Kept s (bind_drivers api left i slot s)
  unfolding bind_drivers
  bind_drivers-Kept api zero i slot s lt le v = record { valid = v; count = refl; registry = refl }
  bind_drivers-Kept api (suc left) i slot s lt le v =
      let k = bind_driver-Kept api i slot s lt (omega arith) v in
      let same = ap (λ (r : Registry World). r.count) k.registry in
      let rest =
        bind_drivers-Kept api left (i + 1) slot _ (omega (arith, k.count)) (omega (arith, same))
          k.valid in
      record {
        valid = rest.valid;
        count = rest.count ∙ k.count;
        registry = rest.registry ∙ k.registry;
      }

  add_device-IsValid :
      (api : PciApi World) (d : PciDevice) (w : World) (s : Pci World)
      → s.pci_devices_count < 64
      → IsValid s
      → IsValid (add_device api d w s)
  unfolding add_device
  add_device-IsValid api d w s lt v = record {
    room = omega arith;
    registry_room = v.registry_room;
    unbound = λ j le. ground (arith, v.unbound j);
    registered = λ j k e. ground (arith, v.registered j k);
    bound = λ j k e. ground (arith, v.bound j k, v.unbound s.pci_devices_count);
  }

  pub with_world-IsValid :
      (w : World) (s : Pci World) → IsValid s → IsValid (record s { world = w })
  with_world-IsValid w s v = record {
    room = v.room;
    registry_room = v.registry_room;
    unbound = v.unbound;
    registered = v.registered;
    bound = v.bound;
  }

  -- A new device, after the loop over the drivers.
  added-IsValid :
      (api : PciApi World) (d : PciDevice) (w : World) (s : Pci World)
      → s.pci_devices_count < 64
      → IsValid s
      → IsValid (
          bind_drivers api s.pci_driver_registry.count 0 s.pci_devices_count (add_device api d w s))
  unfolding add_device
  added-IsValid api d w s lt v =
      (bind_drivers-Kept api s.pci_driver_registry.count 0 s.pci_devices_count
        (add_device api d w s) (omega arith) (omega arith)
        (add_device-IsValid api d w s lt v)).valid

  discover_functions-IsValid :
      (api : PciApi World) (left bus device function : ℕ) (s : Pci World)
      → IsValid s
      → IsValid ((discover_functions api left bus device function s).1)
  unfolding discover_functions
  discover_functions-IsValid api zero bus device function s v = v
  discover_functions-IsValid api (suc left) bus device function s v =
      let read = pci_get_header api bus device function s.world in
      let bars = read_bars api 6 bus device function 0 (read.1) in
      let d = device_of bus device function (read.0) (bars.0) in
      let bound =
        bind_drivers api s.pci_driver_registry.count 0 s.pci_devices_count
          (add_device api d (bars.1) s) in
      let next = λ (t : Pci World). discover_functions api left bus device (function + 1) t in
      let rest =
        λ (t : Pci World). discover_functions-IsValid api left bus device (function + 1) t in
      elim (Bool-cases ((read.0).vendor_id == 0xFFFF)) [
        | inl absent ↦
            rw (discover_functions, absent)
              (rest (record s { world = read.1 }) (with_world-IsValid (read.1) s v))
        | inr there ↦ elim (Bool-cases (ltb s.pci_devices_count 64)) [
          | inr full ↦ rw (discover_functions, there, full) (with_world-IsValid (read.1) s v)
          | inl free ↦
              let ok = added-IsValid api d (bars.1) s (ltb→lt _ 64 free) v in
              elim (Bool-cases (last_function function (read.0))) [
                | inl last ↦ rw (discover_functions, there, free, last) ok
                | inr more ↦ rw (discover_functions, there, free, more) (rest bound ok)
              ]
        ]
      ]

  discover_devices-IsValid :
      (api : PciApi World) (left bus device : ℕ) (s : Pci World)
      → IsValid s
      → IsValid ((discover_devices api left bus device s).1)
  unfolding discover_devices
  discover_devices-IsValid api zero bus device s v = v
  discover_devices-IsValid api (suc left) bus device s v =
      let t = discover_functions api 8 bus device 0 s in
      let ok = discover_functions-IsValid api 8 bus device 0 s v in
      elim (Bool-cases (t.0)) [
        | inl full ↦ rw (discover_devices, full) ok
        | inr more ↦
            rw (discover_devices, more)
              (discover_devices-IsValid api left bus (device + 1) (t.1) ok)
      ]

  pub discover_buses-IsValid :
      (api : PciApi World) (left bus : ℕ) (s : Pci World)
      → IsValid s
      → IsValid ((discover_buses api left bus s).1)
  unfolding discover_buses
  discover_buses-IsValid api zero bus s v = v
  discover_buses-IsValid api (suc left) bus s v =
      let t = discover_devices api 32 bus 0 s in
      let ok = discover_devices-IsValid api 32 bus 0 s v in
      elim (Bool-cases (t.0)) [
        | inl full ↦ rw (discover_buses, full) ok
        | inr more ↦ rw (discover_buses, more) (discover_buses-IsValid api left (bus + 1) (t.1) ok)
      ]

  -- One round of pci_init_unbound_devices.
  round : PciApi World → ℕ → Pci World → Option ℕ → Pci World
  round api j s (some i) = s
  round api j s none = bind_drivers api s.pci_driver_registry.count 0 j s

  round-Kept :
      (api : PciApi World) (j : ℕ) (s : Pci World) (o : Option ℕ)
      → j < s.pci_devices_count
      → IsValid s
      → Kept s (round api j s o)
  unfolding round
  round-Kept api j s (some i) lt v = record { valid = v; count = refl; registry = refl }
  round-Kept api j s none lt v =
      bind_drivers-Kept api s.pci_driver_registry.count 0 j s lt (omega arith) v

  pub init_unbound-IsValid :
      (api : PciApi World) (left j : ℕ) (s : Pci World)
      → j + left ≤ s.pci_devices_count
      → IsValid s
      → IsValid (init_unbound api left j s)
  unfolding init_unbound round
  init_unbound-IsValid api zero j s le v = v
  init_unbound-IsValid api (suc left) j s le v =
      let k = round-Kept api j s (s.pci_devices j).driver (omega arith) v in
      init_unbound-IsValid api left (j + 1) _ (omega (arith, k.count)) k.valid

  pub drivers_pci_register-IsValid :
      (driver : PciDriver World) (s : Pci World)
      → IsValid s
      → IsValid
          (record s { pci_driver_registry = (drivers_pci_register driver s.pci_driver_registry).1 })
  unfolding drivers_pci_register
  drivers_pci_register-IsValid driver s v = elim (Bool-cases (ltb s.pci_driver_registry.count 64)) [
    | inr full ↦ rw full v
    | inl free ↦
        let lt = ltb→lt s.pci_driver_registry.count 64 free in
        rw free (record {
          room = v.room;
          registry_room = omega arith;
          unbound = v.unbound;
          registered = λ j i e. omega (arith, v.registered j i e);
          bound = λ j i e. ground (arith, v.bound j i e, v.registered j i e);
        })
  ]
