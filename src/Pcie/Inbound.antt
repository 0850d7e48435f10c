-- ===== src/Pcie/Inbound.antt =====
-- Where the inbound translation of `PCI_setInBound` puts the words of the three windows.
use dspc8681_linux_driver.Base.{
  ℕ, ◌+◌, ◌*◌, ◌/◌, ◌%◌, ◌^◌, ◌≡◌, ◌↔◌, refl, ap, u32, arith, IsWord, Option, none, some,
}
use dspc8681_linux_driver.Registers.{written, ib_bar, ib_start_lo, ib_start_hi, ib_offset}
use dspc8681_linux_driver.BootLoader.Memory.{Region, in_ll2, in_msmc, in_ddr}
use dspc8681_linux_driver.BootLoader.Memory.Placement.{placement}
use dspc8681_linux_driver.Pcie.{pci_set_in_bound}

-- The base address register of a window.
abbrev pub bar_of : Region → ℕ
bar_of in_ll2 = 1
bar_of in_msmc = 2
bar_of in_ddr = 3

-- The DSP's address of byte `offset` of a window, by the register `IB_OFFSET`.
pub inbound : (ℕ → ℕ) → Region → ℕ → Option ℕ
inbound start region offset = elim (written (pci_set_in_bound start) (ib_offset (bar_of region))) [
  | none ↦ none
  | some base ↦ some (base + offset)
]

-- The address that the DSP sees: an L2 address becomes that of core 0.
abbrev pub global : Region → ℕ → ℕ
global in_ll2 a = 0x10000000 + a % 2 ^ 24
global in_msmc a = a
global in_ddr a = a

u32_iff : (n : ℕ) → (some (u32 n) ≡ some n) ↔ IsWord n
u32_iff n = (λ e. ground (arith, e), λ h. ap some (omega (arith, h)))

-- The inbound window of a region starts at the low 32 bits of its base address register, so at the
-- register's address exactly when that has 32 bits, and takes the word that
-- `uploadProgram` stores for an address of the boot table to that address on the DSP, rounded down
-- to a word: the L2 addresses of every core go to core 0.
pub pci_set_in_bound-global :
    (start : ℕ → ℕ) (a index : ℕ) (region : Region)
    → IsWord a
    → placement a ≡ some (region, index)
    → (written (pci_set_in_bound start) (ib_bar (bar_of region)) ≡ some (bar_of region))
      × (written (pci_set_in_bound start) (ib_start_lo (bar_of region))
          ≡ some (u32 (start (bar_of region))))
      × ((written (pci_set_in_bound start) (ib_start_lo (bar_of region))
            ≡ some (start (bar_of region)))
          ↔ IsWord (start (bar_of region)))
      × (written (pci_set_in_bound start) (ib_start_hi (bar_of region)) ≡ some 0)
      × (inbound start region (4 * index) ≡ some (global region a / 4 * 4))
unfolding pci_set_in_bound written placement inbound
pci_set_in_bound-global start a index in_ll2 h placed =
    (refl, refl, u32_iff _, refl, ap some (ground arith))
pci_set_in_bound-global start a index in_msmc h placed =
    (refl, refl, u32_iff _, refl, ap some (ground arith))
pci_set_in_bound-global start a index in_ddr h placed =
    (refl, refl, u32_iff _, refl, ap some (ground arith))
