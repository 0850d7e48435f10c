-- ===== src/Pcie.antt =====
-- src/pcie.c: finding the chips, mapping their windows, and the registers of the inbound
-- translation. What the kernel's PCI functions return is a parameter.
pub mod Find
pub mod Map
pub mod Inbound
pub mod Master
use dspc8681_linux_driver.Base.{
  ℕ, zero, suc, ◌+◌, ◌^◌, ltb, ◌==◌, if◌then◌else◌, Bool, true, false, u32, shr, bit_and, bit_or, ℤ,
  pos, negsuc, List, [], ◌∷◌, ◌++◌, Option, none, some, Run, done, fault, ◌>>=◌,
}
use dspc8681_linux_driver.Registers.{
  IoWrite, iowrite32, pcie_base_address, ib_bar, ib_start_lo, ib_start_hi, ib_offset, ep_irq_clr,
  ep_irq_status, legacy_a_irq_enable_set, legacy_b_irq_enable_set, legacy_a_irq_enable_clr,
  legacy_b_irq_enable_clr,
}
use dspc8681_linux_driver.BootLoader.Memory.{ll2_start, msmc_start, ddr_start}

-- A device that `pci_get_device` gives for the vendor and the device of the chip.
pub record PciDev : Type 0 where
  pub address : ℕ
  pub class : ℕ

-- `PCI_CLASS_BRIDGE_PCI` of the kernel.
abbrev pub pci_class_bridge_pci : ℕ
pci_class_bridge_pci = 0x0604

-- The loop, over the devices that `pci_get_device` still has to give: what is stored in `pPcieDev`
-- from `pci_dev_count` on, and the count at the end. The array has `capacity` entries.
pub find_loop : ℕ → List PciDev → ℕ → Run (List PciDev × ℕ)
find_loop capacity [] pci_dev_count = done ([], pci_dev_count)
find_loop capacity (dev ∷ devs) pci_dev_count = elim (shr dev.class 8 == pci_class_bridge_pci) [
  | true ↦ find_loop capacity devs pci_dev_count
  | false ↦ elim (ltb pci_dev_count capacity) [
    | true ↦
        find_loop capacity devs (pci_dev_count + 1) >>= λ (found, count). done (dev ∷ found, count)
    | false ↦ fault
  ]
]

-- `PCI_FindPciDevices`: the devices stored, `*pDevCount`, and the value returned.
pub pci_find_pci_devices : ℕ → List PciDev → ℕ → Run (List PciDev × ℕ × ℤ)
pci_find_pci_devices capacity devs dev_count = do
  (found, pci_dev_count) ← find_loop capacity devs 0
  done (if pci_dev_count == 0 then (found, dev_count, negsuc 0) else (found, pci_dev_count, pos 0))

-- `pci_resource_start`, `pci_resource_len` and `pci_resource_flags` of a base address register.
pub record Bar : Type 0 where
  pub start : ℕ
  pub len : ℕ
  pub flags : ℕ

abbrev pub ioresource_mem : ℕ
ioresource_mem = 0x200

-- `pcieBarReg_t`.
pub record PcieBarReg : Type 0 where
  pub reg_virt : ℕ
  pub mem_virt : ℕ
  pub msmc_virt : ℕ
  pub ddr_virt : ℕ
  pub reg_base : ℕ
  pub mem_base : ℕ
  pub msmc_base : ℕ
  pub ddr_base : ℕ
  pub mem_len : ℕ
  pub reg_len : ℕ
  pub msmc_len : ℕ
  pub ddr_len : ℕ

-- `regBase`, `memBase`, `msmcBase` or `ddrBase`: 0 unless the region is memory.
pub bar_base : Bar → ℕ
bar_base bar = if bit_and bar.flags ioresource_mem == 0 then 0 else bar.start

-- One region: its pointer and `retValue` after it. What `request_mem_region` and `request_region`
-- return is not looked at.
pub map_region : (ℕ → ℕ → ℕ) → Bar → ℕ → ℤ → ℤ → ℕ × ℤ
map_region ioremap bar virt ret_value error =
    if ltb 0 (bar_base bar) then (ioremap bar.start bar.len, ret_value) else (virt, error)

-- `PCI_readBAR`: the structure after it, and the value returned. A region that is not mapped keeps
-- the pointer it had, and the value is that of the last such region.
pub pci_read_bar : (ℕ → ℕ → ℕ) → Bar → Bar → Bar → Bar → PcieBarReg → PcieBarReg × ℤ
unfolding map_region
pci_read_bar ioremap bar0 bar1 bar2 bar3 r =
    let reg = map_region ioremap bar0 r.reg_virt (pos 0) (negsuc 0) in
    let mem = map_region ioremap bar1 r.mem_virt reg.1 (negsuc 1) in
    let msmc = map_region ioremap bar2 r.msmc_virt mem.1 (negsuc 2) in
    let ddr = map_region ioremap bar3 r.ddr_virt msmc.1 (negsuc 3) in
    (
      record {
        reg_virt = reg.0;
        mem_virt = mem.0;
        msmc_virt = msmc.0;
        ddr_virt = ddr.0;
        reg_base = bar_base bar0;
        mem_base = bar_base bar1;
        msmc_base = bar_base bar2;
        ddr_base = bar_base bar3;
        mem_len = bar1.len;
        reg_len = bar0.len;
        msmc_len = bar2.len;
        ddr_len = bar3.len;
      },
      ddr.1,
    )

-- `PCI_setMaster`, with what `pci_set_mwi` returns and the command word that is read: the command
-- word written, if one is, and the value returned.
pub pci_set_master : ℤ → ℕ → Option ℕ × ℤ
pci_set_master (pos zero) cmd_val =
    (some (bit_and (bit_or cmd_val (bit_or (bit_or 0x2 0x4) 0x100)) 0xFBFF), pos 0)
pci_set_master (pos (suc n)) cmd_val = (none, negsuc 0)
pci_set_master (negsuc n) cmd_val = (none, negsuc 0)

-- `HAL_CheckPciInterrupt`, with the registers by word.
pub hal_check_pci_interrupt : (ℕ → ℕ) → Bool
hal_check_pci_interrupt register =
    if register (iowrite32 0 ep_irq_status).word == 0 then false else true

unfoldable pub pci_clear_dsp_interrupt : List IoWrite
pci_clear_dsp_interrupt = iowrite32 1 ep_irq_clr ∷ []

unfoldable pub pci_enable_dsp_interrupt : List IoWrite
pci_enable_dsp_interrupt =
    iowrite32 1 legacy_a_irq_enable_set ∷ iowrite32 1 legacy_b_irq_enable_set ∷ []

pub pci_disable_dsp_interrupt : List IoWrite
pci_disable_dsp_interrupt =
    iowrite32 1 legacy_a_irq_enable_clr ∷ iowrite32 1 legacy_b_irq_enable_clr ∷ []

-- The loop of `PCI_setInBound`, with `left` rounds to go; `start i` is `resource[i].start`, of which
-- `iowrite32` takes the low 32 bits.
pub in_bound_loop : (ℕ → ℕ) → ℕ → ℕ → List IoWrite
in_bound_loop start zero i = []
in_bound_loop start (suc left) i =
    iowrite32 i (ib_bar i)
    ∷ iowrite32 (u32 (start i)) (ib_start_lo i)
    ∷ iowrite32 0 (ib_start_hi i)
    ∷ in_bound_loop start left (i + 1)

unfoldable pub pci_set_in_bound : (ℕ → ℕ) → List IoWrite
unfolding in_bound_loop
pci_set_in_bound start =
    in_bound_loop start 4 0
    ++ iowrite32 pcie_base_address (ib_offset 0)
      ∷ iowrite32 (ll2_start + 2 ^ 28) (ib_offset 1)
      ∷ iowrite32 msmc_start (ib_offset 2)
      ∷ iowrite32 ddr_start (ib_offset 3)
      ∷ []
