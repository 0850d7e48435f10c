-- ===== src/Entry/Init/Booted.antt =====
-- The second loop of `init_module` when the regions of the first chip are memory and mapped.
use dspc8681_linux_driver.Base.{
  ℕ, ◌/◌, ◌++◌, ◌≤◌, ◌<◌, ◌≡◌, refl, ◌∙◌, arith, true, ltb, ℤ, pos, List, [], ◌∷◌, length,
  get_elem?, Option, none, some, Run, done, ◌>>=◌, >>=-assoc, ◌≢◌,
}
use dspc8681_linux_driver.BootLoader.Memory.{DspMemory}
use dspc8681_linux_driver.BootLoader.Boot.{Images, Host, boot_loader}
use dspc8681_linux_driver.Pcie.{
  pci_set_master, pci_set_in_bound, pci_enable_dsp_interrupt, PciDev, PcieBarReg,
}
use dspc8681_linux_driver.Pcie.Find.{endpoints}
use dspc8681_linux_driver.Pcie.Map.{IsMemory, mapped_bar_reg, pci_read_bar_lem}
use dspc8681_linux_driver.Entry.Files.{ProcessorUnitDev}
use dspc8681_linux_driver.Entry.Init.{
  Board, Semaphores, Driver, zeroed_bar_reg, four, mapped_words, reg_pointer, boot_writes, host_of,
  resource_start, start_chip, open_chip, init_round, init_loop, init_module, goes_on,
}
use dspc8681_linux_driver.Entry.Init.Alloc.{Allocated, allocated_driver, init_module-init_loop}

-- The memory behind the base address registers of a chip.
abbrev pub memory_of : Board → DspMemory
memory_of b = record {
  ll2 = record { size = b.bar1.len / 4; word = b.ll2_word };
  msmc = record { size = b.bar2.len / 4; word = b.msmc_word };
  ddr = record { size = b.bar3.len / 4; word = b.ddr_word };
}

-- `ioremap` maps the regions of the chip: none of its results is `NULL`.
abbrev pub IsRemapped : (ℕ → ℕ → ℕ) → Board → Type 0
IsRemapped ioremap b =
    (ioremap b.bar0.start b.bar0.len ≢ 0)
    × (ioremap b.bar1.start b.bar1.len ≢ 0)
    × (ioremap b.bar2.start b.bar2.len ≢ 0)
    × (ioremap b.bar3.start b.bar3.len ≢ 0)

-- What `bootLoader` finds on the first chip when all its regions are mapped.
abbrev pub fresh_host : Board → Host
fresh_host b = record { memory = memory_of b; register_table = four 0; events = [] }

-- What is left when all regions are memory and `bootLoader` has left `host`.
abbrev pub bar_reg_of : (ℕ → ℕ → ℕ) → Board → PcieBarReg
bar_reg_of ioremap b = mapped_bar_reg ioremap b.bar0 b.bar1 b.bar2 b.bar3

abbrev first_unit : (ℕ → ℕ → ℕ) → Board → Option ProcessorUnitDev
first_unit ioremap b = some (record { dev_minor = 0; reg_virt = ioremap b.bar0.start b.bar0.len })

abbrev pub booted_driver :
    (ℕ → ℕ → ℕ)
    → List PciDev
    → List (Option PcieBarReg)
    → List (Option Semaphores)
    → Board
    → Host
    → Driver
booted_driver ioremap found bar_regs semaphores b host = record {
  pcie_dev = found;
  pcie_bar_reg = some (bar_reg_of ioremap b) ∷ bar_regs;
  semaphores = semaphores;
  cdev = 0 ∷ [];
  processor_unit_dev = first_unit ioremap b ∷ none ∷ none ∷ none ∷ [];
  register_table = host.register_table;
  command_writes = (0, (pci_set_master b.mwi b.command).0) ∷ [];
  register_writes =
      (
        0,
        pci_set_in_bound (resource_start b)
            ++ (pci_enable_dsp_interrupt ++ boot_writes host.events),
      )
      ∷ [];
  hosts = (0, host) ∷ [];
}

mapped_words_lem : (virt len : ℕ) → virt ≢ 0 → mapped_words virt len ≡ len / 4
mapped_words_lem virt len h = ground (arith, h)

reg_pointer_lem : (r : PcieBarReg) → r.reg_virt ≢ 0 → reg_pointer r ≡ done r.reg_virt
unfolding reg_pointer
reg_pointer_lem r h = ground (arith, h)

host_of-fresh :
    (ioremap : ℕ → ℕ → ℕ) (b : Board)
    → IsRemapped ioremap b
    → host_of b (bar_reg_of ioremap b) (four 0) ≡ fresh_host b
host_of-fresh ioremap b (_, h1, h2, h3) =
    rw
      (
        mapped_words_lem _ b.bar1.len h1,
        mapped_words_lem _ b.bar2.len h2,
        mapped_words_lem _ b.bar3.len h3,
      )
      refl

-- `bootLoader` on the first chip.
abbrev pub boot_first : ℕ → Images → Board → Run (Host × ℤ)
boot_first fuel images b =
    boot_loader fuel b.dsp images b.dma_vir_addr b.dma_phy_addr 0 (fresh_host b)

module _ (fuel : ℕ) (images : Images) (ioremap : ℕ → ℕ → ℕ) (boards : List Board) where
  -- The second loop when all regions are memory and mapped: it ends as `bootLoader` does.
  open_chip-booted :
      (found : List PciDev) (bar_regs : List (Option PcieBarReg))
      (semaphores : List (Option Semaphores)) (b : Board)
      → IsRemapped ioremap b
      → open_chip fuel images b 0
          (bar_reg_of ioremap b, pos 0)
          (allocated_driver found bar_regs semaphores)
        ≡ (boot_first fuel images b >>= λ (host, code).
            done (goes_on (booted_driver ioremap found bar_regs semaphores b host) code))
  unfolding open_chip start_chip
  open_chip-booted found bar_regs semaphores b remapped =
      let inside : ltb 0 (length (some zeroed_bar_reg ∷ bar_regs)) ≡ true = ground arith in
      rw inside (
        rw (reg_pointer_lem (bar_reg_of ioremap b) remapped.0, host_of-fresh ioremap b remapped)
          refl)

  init_loop-booted :
      (found : List PciDev) (bar_regs : List (Option PcieBarReg))
      (semaphores : List (Option Semaphores)) (b : Board)
      → get_elem? boards 0 ≡ some b
      → IsMemory b.bar0 × IsMemory b.bar1 × IsMemory b.bar2 × IsMemory b.bar3
      → IsRemapped ioremap b
      → init_loop fuel images ioremap boards 1 0
          (allocated_driver found bar_regs semaphores)
          (pos 0)
        ≡ (boot_first fuel images b >>= λ (host, code).
            done (booted_driver ioremap found bar_regs semaphores b host, code))
  unfolding init_loop init_round
  init_loop-booted found bar_regs semaphores b first memory remapped =
      rw
        (
          first,
          pci_read_bar_lem ioremap b.bar0 b.bar1 b.bar2 b.bar3 zeroed_bar_reg memory,
          open_chip-booted found bar_regs semaphores b remapped,
        )
        (>>=-assoc (boot_first fuel images b) _ _)

  -- `init_module` on one to four chips, the first of which has regions that are memory and mapped.
  pub init_module-booted :
      (devs : List PciDev) (b : Board)
      → 0 < length (endpoints devs)
      → length (endpoints devs) ≤ 4
      → get_elem? boards 0 ≡ some b
      → IsMemory b.bar0 × IsMemory b.bar1 × IsMemory b.bar2 × IsMemory b.bar3
      → IsRemapped ioremap b
      → (allocated : Driver) × (filled : Allocated (endpoints devs) allocated) × (init_module fuel
            images ioremap devs boards
            (pos 0)
          ≡ (boot_first fuel images b >>= λ (host, code). done (
            booted_driver ioremap (endpoints devs) filled.bar_regs filled.semaphores b host,
            code,
          )))
  init_module-booted devs b some_chip room first memory remapped =
      let (d, entered, filled) =
        init_module-init_loop fuel images ioremap boards devs some_chip room in
      (
        d,
        filled,
        entered
            ∙ rw filled.driver (
                init_loop-booted (endpoints devs) filled.bar_regs filled.semaphores b first memory
                  remapped),
      )
