-- ===== src/Pcie/Map.antt =====
-- When `PCI_readBAR` succeeds.
use dspc8681_linux_driver.Base.{ℕ, ◌≡◌, ◌≢◌, ◌↔◌, refl, arith, ltb, true, bit_and, pos}
use dspc8681_linux_driver.Pcie.{Bar, ioresource_mem, PcieBarReg, bar_base, map_region, pci_read_bar}

-- A region of memory at an address other than 0.
abbrev pub IsMemory : Bar → Type 0
IsMemory bar = (bit_and bar.flags ioresource_mem ≢ 0) × (bar.start ≢ 0)

-- `PCI_readBAR` returns 0 exactly when all four regions are memory at a nonzero address, whatever
-- `ioremap` returns.
pub pci_read_bar-0_iff :
    (ioremap : ℕ → ℕ → ℕ) (bar0 bar1 bar2 bar3 : Bar) (r : PcieBarReg)
    → ((pci_read_bar ioremap bar0 bar1 bar2 bar3 r).1 ≡ pos 0)
      ↔ (IsMemory bar0 × IsMemory bar1 × IsMemory bar2 × IsMemory bar3)
unfolding pci_read_bar map_region bar_base
pci_read_bar-0_iff ioremap bar0 bar1 bar2 bar3 r = ground arith

-- The structure when all four are mapped.
abbrev pub mapped_bar_reg : (ℕ → ℕ → ℕ) → Bar → Bar → Bar → Bar → PcieBarReg
mapped_bar_reg ioremap bar0 bar1 bar2 bar3 = record {
  reg_virt = ioremap bar0.start bar0.len;
  mem_virt = ioremap bar1.start bar1.len;
  msmc_virt = ioremap bar2.start bar2.len;
  ddr_virt = ioremap bar3.start bar3.len;
  reg_base = bar0.start;
  mem_base = bar1.start;
  msmc_base = bar2.start;
  ddr_base = bar3.start;
  mem_len = bar1.len;
  reg_len = bar0.len;
  msmc_len = bar2.len;
  ddr_len = bar3.len;
}

bar_base-IsMemory : (bar : Bar) → IsMemory bar → bar_base bar ≡ bar.start
unfolding bar_base
bar_base-IsMemory bar h = ground (arith, h)

pub pci_read_bar_lem :
    (ioremap : ℕ → ℕ → ℕ) (bar0 bar1 bar2 bar3 : Bar) (r : PcieBarReg)
    → IsMemory bar0 × IsMemory bar1 × IsMemory bar2 × IsMemory bar3
    → pci_read_bar ioremap bar0 bar1 bar2 bar3 r
      ≡ (mapped_bar_reg ioremap bar0 bar1 bar2 bar3, pos 0)
unfolding pci_read_bar
pci_read_bar_lem ioremap bar0 bar1 bar2 bar3 r (h0, h1, h2, h3) =
    rw
      (
        bar_base-IsMemory bar0 h0,
        bar_base-IsMemory bar1 h1,
        bar_base-IsMemory bar2 h2,
        bar_base-IsMemory bar3 h3,
        some_start bar0 h0,
        some_start bar1 h1,
        some_start bar2 h2,
        some_start bar3 h3,
      )
      refl
  where
    some_start : (bar : Bar) → IsMemory bar → ltb 0 bar.start ≡ true
    some_start bar h = ground (arith, h)
