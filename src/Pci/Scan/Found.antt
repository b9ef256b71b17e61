-- ===== src/Pci/Scan/Found.antt =====
-- What pci_find_device of kernel/x86_64/buses/pci.c finds.
use fesos.Prelude.{
  ℕ, zero, suc, ◌+◌, ◌/◌, ◌%◌, ◌^◌, ◌≤◌, ◌<◌, ◌≢◌, ◌≡◌, refl, false, ◌&&◌, Bool-cases, inl, inr,
  and_left, and_right, Option-cases, subst, ne→==_false, Option, none, some, List, ◌==◌, arith,
}
use fesos.Pci.{PciHeader, PciDevice, PciApi}
use fesos.Pci.Scan.{
  pci_get_header, read_bars, device_of, last_function, find_functions, find_devices, find_buses,
  pci_find_device,
}

-- A device that was asked for, at an address that exists, or none.
pub data Asked (class_code subclass : ℕ) : Option PciDevice → Type 0 where
  missing : Asked class_code subclass none
  found :
      {d : PciDevice}
      → d.class_code ≡ class_code
      → d.subclass ≡ subclass
      → d.vendor_id ≢ 0xFFFF
      → d.bus < 256
      → d.device < 32
      → d.function < 8
      → Asked class_code subclass (some d)

device_of-Asked :
    (class_code subclass bus device function : ℕ) (h : PciHeader) (bars : List ℕ)
    → h.class_code ≡ class_code
    → h.subclass ≡ subclass
    → h.vendor_id ≢ 0xFFFF
    → device < 32
    → function < 8
    → Asked class_code subclass (some (device_of bus device function h bars))
unfolding device_of
device_of-Asked class_code subclass bus device function h bars c s v d f =
    found {d = device_of bus device function h bars} c s v (omega arith) d f

module _ {World : Type 0} (api : PciApi World) (class_code subclass : ℕ) where
  find_functions-Asked :
      (left bus device function : ℕ) (w : World)
      → bus < 256
      → device < 32
      → function + left ≤ 8
      → Asked class_code subclass
          ((find_functions api class_code subclass left bus device function w).0)
  unfolding find_functions
  find_functions-Asked zero bus device function w b d f = missing
  find_functions-Asked (suc left) bus device function w b d f =
      let read = pci_get_header api bus device function w in
      let h = read.0 in
      let go_on = find_functions-Asked left bus device (function + 1) (read.1) b d (omega arith) in
      elim (Bool-cases (h.vendor_id == 0xFFFF)) [
        | inl absent ↦ rw (find_functions, absent) go_on
        | inr there ↦ elim (Bool-cases (h.class_code == class_code && h.subclass == subclass)) [
          | inl fits ↦
              let first = and_left (h.class_code == class_code) _ fits in
              let second = and_right (h.class_code == class_code) _ fits in
              rw (find_functions, there, fits)
                (device_of-Asked class_code subclass bus device function h
                  ((read_bars api 6 bus device function 0 (read.1)).0) (ground (arith, first))
                  (ground (arith, second)) (ground (arith, there)) d (omega arith))
          | inr not_asked ↦ elim (Bool-cases (last_function function h)) [
            | inl last ↦ rw (find_functions, there, not_asked, last) missing
            | inr more ↦ rw (find_functions, there, not_asked, more) go_on
          ]
        ]
      ]

  find_devices-Asked :
      (left bus device : ℕ) (w : World)
      → bus < 256
      → device + left ≤ 32
      → Asked class_code subclass ((find_devices api class_code subclass left bus device w).0)
  unfolding find_devices
  find_devices-Asked zero bus device w b d = missing
  find_devices-Asked (suc left) bus device w b d =
      let t = find_functions api class_code subclass 8 bus device 0 w in
      let ok = find_functions-Asked 8 bus device 0 w b (omega arith) (omega arith) in
      elim (Option-cases (t.0)) [
        | inl none_there ↦
            rw (find_devices, none_there)
              (find_devices-Asked left bus (device + 1) (t.1) b (omega arith))
        | inr (x, e) ↦ rw (find_devices, e) (subst (Asked class_code subclass) e ok)
      ]

  pub find_buses-Asked :
      (left bus : ℕ) (w : World)
      → bus + left ≤ 256
      → Asked class_code subclass ((find_buses api class_code subclass left bus w).0)
  unfolding find_buses
  find_buses-Asked zero bus w b = missing
  find_buses-Asked (suc left) bus w b =
      let t = find_devices api class_code subclass 32 bus 0 w in
      let ok = find_devices-Asked 32 bus 0 w (omega arith) (omega arith) in
      elim (Option-cases (t.0)) [
        | inl none_there ↦
            rw (find_buses, none_there) (find_buses-Asked left (bus + 1) (t.1) (omega arith))
        | inr (x, e) ↦ rw (find_buses, e) (subst (Asked class_code subclass) e ok)
      ]

-- pci_find_device returns, and finds no device or one that has the class and the subclass that were
-- asked for, is present, and has a bus below 256, a device number below 32 and a function below 8.
pub pci_find_device-Asked :
    {World : Type 0} (api : PciApi World) (class_code subclass : ℕ) (w : World)
    → Asked class_code subclass ((pci_find_device api class_code subclass w).0)
unfolding pci_find_device
pci_find_device-Asked api class_code subclass w =
    find_buses-Asked api class_code subclass 256 0 w (omega arith)

-- Where function 0 of a device is present and has the bit of a device with several functions, but
-- not the class and the subclass that are asked for, the search passes over all its other functions.
pub several_functions :
    {World : Type 0} (api : PciApi World) (class_code subclass left bus device : ℕ) (w : World)
    → ((pci_get_header api bus device 0 w).0).vendor_id ≢ 0xFFFF
    → ((pci_get_header api bus device 0 w).0).header_type / 2 ^ 7 % 2 ≡ 1
    → (((pci_get_header api bus device 0 w).0).class_code == class_code
        && ((pci_get_header api bus device 0 w).0).subclass == subclass)
      ≡ false
    → find_functions api class_code subclass (suc left) bus device 0 w
      ≡ (none, (pci_get_header api bus device 0 w).1)
unfolding find_functions last_function
several_functions api class_code subclass left bus device w present several other =
    rw (find_functions, ne→==_false _ 0xFFFF present, other, several) refl
