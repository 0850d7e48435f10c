-- ===== src/Tests/Bus.antt =====
-- The theorems on src/pcie.c at concrete inputs.
use dspc8681_linux_driver.Base.Bits.{bit}
use dspc8681_linux_driver.Pcie.Master.{command_bit, pci_set_master-command_bit}
use dspc8681_linux_driver.Pcie.{pci_set_master}
use dspc8681_linux_driver.Base.{
  ℕ, ◌+◌, ◌*◌, ◌≡◌, IsWord, ◌↔◌, ◌/◌, leb, ◌==◌, refl, arith, if◌then◌else◌, pos, negsuc, List, [],
  ◌∷◌, length, some, done, fault,
}
use dspc8681_linux_driver.BootLoader.Memory.{in_ll2}
use dspc8681_linux_driver.BootLoader.Memory.Placement.{placement}
use dspc8681_linux_driver.Registers.{written, ib_bar, ib_start_lo, ib_start_hi}
use dspc8681_linux_driver.Pcie.{
  PciDev, pci_find_pci_devices, Bar, PcieBarReg, pci_read_bar, pci_set_in_bound,
}
use dspc8681_linux_driver.Pcie.Find.{endpoints, pci_find_pci_devices_lem}
use dspc8681_linux_driver.Pcie.Map.{IsMemory, pci_read_bar-0_iff}
use dspc8681_linux_driver.Pcie.Inbound.{inbound, global, pci_set_in_bound-global}

-- A bridge and two chips.
abbrev devices : List PciDev
devices =
    record { address = 1; class = 0x060400 }
    ∷ record { address = 2; class = 0x048000 }
    ∷ record { address = 3; class = 0x048000 }
    ∷ []

pci_find_pci_devices_lem_example : pci_find_pci_devices 1 devices 0 ≡ (
    if leb (length (endpoints devices)) 1
    then done (
        if length (endpoints devices) == 0
        then (endpoints devices, 0, negsuc 0)
        else (endpoints devices, length (endpoints devices), pos 0))
    else fault)
pci_find_pci_devices_lem_example = pci_find_pci_devices_lem 1 devices 0

abbrev bar : ℕ → Bar
bar start = record { start = start; len = 0x1000; flags = 0x200 }

abbrev bar_reg : PcieBarReg
bar_reg = record {
  reg_virt = 0;
  mem_virt = 0;
  msmc_virt = 0;
  ddr_virt = 0;
  reg_base = 0;
  mem_base = 0;
  msmc_base = 0;
  ddr_base = 0;
  mem_len = 0;
  reg_len = 0;
  msmc_len = 0;
  ddr_len = 0;
}

abbrev ioremap : ℕ → ℕ → ℕ
ioremap start len = 0xF0000000 + start

pci_read_bar-0_iff_example :
    ((pci_read_bar ioremap (bar 0x1000) (bar 0x2000) (bar 0) (bar 0x4000) bar_reg).1 ≡ pos 0)
    ↔ (IsMemory (bar 0x1000) × IsMemory (bar 0x2000) × IsMemory (bar 0) × IsMemory (bar 0x4000))
pci_read_bar-0_iff_example =
    pci_read_bar-0_iff ioremap (bar 0x1000) (bar 0x2000) (bar 0) (bar 0x4000) bar_reg

pci_set_in_bound-global_example :
    (written (pci_set_in_bound (λ i. 0x1000 * i)) (ib_bar 1) ≡ some 1)
    × (written (pci_set_in_bound (λ i. 0x1000 * i)) (ib_start_lo 1) ≡ some 0x1000)
    × ((written (pci_set_in_bound (λ i. 0x1000 * i)) (ib_start_lo 1) ≡ some 0x1000) ↔ IsWord 0x1000)
    × (written (pci_set_in_bound (λ i. 0x1000 * i)) (ib_start_hi 1) ≡ some 0)
    × (inbound (λ i. 0x1000 * i) in_ll2 8 ≡ some (global in_ll2 0x11800008 / 4 * 4))
unfolding placement
pci_set_in_bound-global_example =
    pci_set_in_bound-global (λ i. 0x1000 * i) 0x11800008 2 in_ll2 (omega arith) refl

pci_set_master-command_bit_example :
    (w : ℕ) × (pci_set_master (pos 0) 0x0400 ≡ (some w, pos 0)) × (bit w 10 ≡ command_bit 0x0400 10)
pci_set_master-command_bit_example = pci_set_master-command_bit 0x0400 10 (omega arith)
