-- ===== src/Pci/Scan/Tests.antt =====
-- A bus with one device, at bus 0, device 1, function 0: a disk controller of class 1, subclass 6.
use fesos.Prelude.{ℕ, ◌+◌, refl, ◌&&◌, none, [], ◌==◌, if◌then◌else◌}
use fesos.Pci.{PciDevice, class_driver, PciDriver, Pci, PciApi, drivers_pci_register}
use fesos.Pci.Scan.{pci_find_device, pci_discover}
use fesos.Pci.Scan.Tables.{IsValid}
use fesos.Pci.Scan.Sequences.{here, next, register, discover, Reach-IsValid}
use fesos.Pci.Scan.Found.{Asked, pci_find_device-Asked}

abbrev api : PciApi ℕ
api = record {
  read = λ bus device function offset size w.
      if bus == 0 && device == 1 && function == 0
      then (if offset == 0 then 0x29228086 else 0x01060102, w)
      else (0xFFFFFFFF, w);
  write = λ bus device function offset value size w. w;
}

abbrev disk_driver : PciDriver ℕ
disk_driver = record { driver_codes = class_driver 1 6 1; init = λ device w. (0, w + 1) }

abbrev no_device : PciDevice
no_device = record {
  bus = 0;
  device = 0;
  function = 0;
  vendor_id = 0;
  device_id = 0;
  class_code = 0;
  subclass = 0;
  prog_if = 0;
  bars = [];
}

abbrev empty : Pci ℕ
empty = record {
  world = 0;
  pci_devices = λ j. record { device = no_device; driver = none };
  pci_devices_count = 0;
  pci_driver_registry = record { drivers = λ i. disk_driver; count = 0 };
}

abbrev with_driver : Pci ℕ
with_driver = record empty {
  pci_driver_registry = (drivers_pci_register disk_driver empty.pci_driver_registry).1;
}

pci_find_device-Asked_example : Asked 1 6 ((pci_find_device api 1 6 0).0)
pci_find_device-Asked_example = pci_find_device-Asked api 1 6 0

Reach-IsValid_example : IsValid (pci_discover api with_driver)
Reach-IsValid_example =
    Reach-IsValid {s = empty} refl refl (λ j. refl)
      (next (next here (register disk_driver)) (discover api))
