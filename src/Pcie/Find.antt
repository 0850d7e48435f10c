-- ===== src/Pcie/Find.antt =====
-- Which devices `PCI_FindPciDevices` finds.
use dspc8681_linux_driver.Base.{
  ℕ, ◌+◌, ◌≤◌, ◌<◌, ◌≡◌, refl, ap, arith, leb, Bool-cases, inl, inr, ◌==◌, if◌then◌else◌, true,
  false, shr, pos, negsuc, List, [], ◌∷◌, length, done, fault,
}
use dspc8681_linux_driver.Pcie.{PciDev, pci_class_bridge_pci, find_loop, pci_find_pci_devices}

-- The devices that are no bridge, in order.
unfoldable pub endpoints : List PciDev → List PciDev
endpoints [] = []
endpoints (dev ∷ devs) = elim (shr dev.class 8 == pci_class_bridge_pci) [
  | true ↦ endpoints devs
  | false ↦ dev ∷ endpoints devs
]

find_loop-endpoints :
    (capacity : ℕ) (devs : List PciDev) (count : ℕ)
    → count + length (endpoints devs) ≤ capacity
    → find_loop capacity devs count ≡ done (endpoints devs, count + length (endpoints devs))
unfolding find_loop endpoints
find_loop-endpoints capacity [] count h = ap (λ n. done ([], n)) (omega arith)
find_loop-endpoints capacity (dev ∷ devs) count h =
    ground (
      arith,
      find_loop-endpoints capacity devs count,
      find_loop-endpoints capacity devs (count + 1),
    )

find_loop-fault :
    (capacity : ℕ) (devs : List PciDev) (count : ℕ)
    → count ≤ capacity
    → capacity < count + length (endpoints devs)
    → find_loop capacity devs count ≡ fault
unfolding find_loop endpoints
find_loop-fault capacity [] count p h = absurd (omega arith)
find_loop-fault capacity (dev ∷ devs) count p h =
    ground (arith, find_loop-fault capacity devs count, find_loop-fault capacity devs (count + 1))

-- `PCI_FindPciDevices` stores the devices that are no bridge, in order, with their number, and
-- returns 0; with none of them it returns -1 and leaves the number alone. The array must have room.
pub pci_find_pci_devices-endpoints :
    (capacity : ℕ) (devs : List PciDev) (dev_count : ℕ)
    → length (endpoints devs) ≤ capacity
    → pci_find_pci_devices capacity devs dev_count
      ≡ done (
          if length (endpoints devs) == 0
          then (endpoints devs, dev_count, negsuc 0)
          else (endpoints devs, length (endpoints devs), pos 0))
unfolding pci_find_pci_devices
pci_find_pci_devices-endpoints capacity devs dev_count h =
    let count : 0 + length (endpoints devs) ≡ length (endpoints devs) = omega arith in
    rw (find_loop-endpoints capacity devs 0 (omega arith), count) refl

-- The size of the array is not tested: more devices than it has entries are stored past its end.
pub pci_find_pci_devices_overrun :
    (capacity : ℕ) (devs : List PciDev) (dev_count : ℕ)
    → capacity < length (endpoints devs)
    → pci_find_pci_devices capacity devs dev_count ≡ fault
unfolding pci_find_pci_devices
pci_find_pci_devices_overrun capacity devs dev_count h =
    rw (find_loop-fault capacity devs 0 (omega arith) (omega arith)) refl

-- `PCI_FindPciDevices` on every list of devices: with room in the array it stores those that are no
-- bridge, in order, with their number, and returns 0, or -1 and leaves the number alone if there are
-- none; with more of them than the array has entries it stores past the end.
pub pci_find_pci_devices_lem :
    (capacity : ℕ) (devs : List PciDev) (dev_count : ℕ)
    → pci_find_pci_devices capacity devs dev_count ≡ (
        if leb (length (endpoints devs)) capacity
        then done (
            if length (endpoints devs) == 0
            then (endpoints devs, dev_count, negsuc 0)
            else (endpoints devs, length (endpoints devs), pos 0))
        else fault)
pci_find_pci_devices_lem capacity devs dev_count =
    elim (Bool-cases (leb (length (endpoints devs)) capacity)) [
      | inl room ↦ rw room (pci_find_pci_devices-endpoints capacity devs dev_count (ground arith))
      | inr none_left ↦
          rw none_left (pci_find_pci_devices_overrun capacity devs dev_count (ground arith))
    ]
