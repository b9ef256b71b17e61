-- ===== src/Pci/Scan/Sequences.antt =====
-- Sequences of calls of kernel/x86_64/buses/pci.c and kernel/x86_64/kernel/drivers.c.
use fesos.Prelude.{ℕ, ◌≡◌, none, arith}
use fesos.Pci.{PciDriver, Pci, PciApi, drivers_pci_register}
use fesos.Pci.Scan.{pci_discover, pci_init_unbound_devices}
use fesos.Pci.Scan.Tables.{
  IsValid, discover_buses-IsValid, init_unbound-IsValid, drivers_pci_register-IsValid,
  with_world-IsValid,
}

module _ {World : Type 0} where
  -- The calls of the other parts of the kernel, which may write configuration space in between.
  pub data Step (s : Pci World) : Pci World → Type 0 where
    register :
        (driver : PciDriver World)
        → Step s (record s {
          pci_driver_registry = (drivers_pci_register driver s.pci_driver_registry).1;
        })
    discover : (api : PciApi World) → Step s (pci_discover api s)
    init_devices : (api : PciApi World) → Step s (pci_init_unbound_devices api s)
    other : (w : World) → Step s (record s { world = w })

  pub data Reach (s : Pci World) : Pci World → Type 0 where
    here : Reach s s
    next : {t u : Pci World} → Reach s t → Step t u → Reach s u

  Step-IsValid : {s t : Pci World} → Step s t → IsValid s → IsValid t
  unfolding pci_discover pci_init_unbound_devices
  Step-IsValid {s} (register driver) v = drivers_pci_register-IsValid driver s v
  Step-IsValid {s} (discover api) v = discover_buses-IsValid api 256 0 s v
  Step-IsValid {s} (init_devices api) v =
      init_unbound-IsValid api s.pci_devices_count 0 s (omega arith) v
  Step-IsValid {s} (other w) v = with_world-IsValid w s v

  -- From empty tables, after any sequence of drivers_pci_register, pci_discover,
  -- pci_init_unbound_devices and other changes of the world: neither table has more than 64 entries,
  -- entries that are not in use have no driver, and the driver of an entry is registered and is for
  -- its device, by vendor and device, or by class, subclass and interface.
  pub Reach-IsValid :
      {s t : Pci World}
      → s.pci_devices_count ≡ 0
      → s.pci_driver_registry.count ≡ 0
      → ((j : ℕ) → (s.pci_devices j).driver ≡ none)
      → Reach s t
      → IsValid t
  Reach-IsValid none_found none_registered none_bound here = record {
    room = omega arith;
    registry_room = omega arith;
    unbound = λ j le. none_bound j;
    registered = λ j i e. absurd (ground (arith, none_bound j, e));
    bound = λ j i e. absurd (ground (arith, none_bound j, e));
  }
  Reach-IsValid none_found none_registered none_bound (next r step) =
      Step-IsValid step (Reach-IsValid none_found none_registered none_bound r)
