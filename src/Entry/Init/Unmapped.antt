-- ===== src/Entry/Init/Unmapped.antt =====
-- What `init_module` leaves when a region of the first chip is not memory.
use dspc8681_linux_driver.Base.{
  ℕ, zero, suc, ◌≤◌, ◌<◌, ◌≡◌, ◌≢◌, ◌⊎◌, refl, ◌∙◌, inl, inr, arith, true, ltb, ℤ, pos, List, [],
  ◌∷◌, length, get_elem?, Option, none, some, done, fault, Bool-cases,
}
use dspc8681_linux_driver.BootLoader.Boot.{Images, is_0}
use dspc8681_linux_driver.Pcie.{PciDev, PcieBarReg, pci_read_bar}
use dspc8681_linux_driver.Pcie.Find.{endpoints}
use dspc8681_linux_driver.Pcie.Map.{IsMemory, pci_read_bar-0_iff}
use dspc8681_linux_driver.Entry.Files.{ProcessorUnitDev, dpu_open, dpu_open_null}
use dspc8681_linux_driver.Entry.Init.{
  Board, Semaphores, Driver, zeroed_bar_reg, four, open_chip, init_round, init_loop, init_module,
  returns,
}
use dspc8681_linux_driver.BootLoader.Boot.Pushes.{is_0_iff}
use dspc8681_linux_driver.Entry.Init.Alloc.{allocated_driver, init_module-init_loop, later_null}

abbrev unmapped_driver :
    List PciDev → List (Option PcieBarReg) → List (Option Semaphores) → PcieBarReg → Driver
unmapped_driver found bar_regs semaphores r = record (allocated_driver found bar_regs semaphores) {
  cdev = 0 ∷ [];
  pcie_bar_reg = some r ∷ bar_regs;
}

module _ (fuel : ℕ) (images : Images) (ioremap : ℕ → ℕ → ℕ) (boards : List Board)
    (found : List PciDev) (bar_regs : List (Option PcieBarReg))
    (semaphores : List (Option Semaphores)) (b : Board) where
  open_chip-unmapped :
      (r : PcieBarReg) (code : ℤ)
      → code ≢ pos 0
      → open_chip fuel images b 0 (r, code) (allocated_driver found bar_regs semaphores)
        ≡ done (returns (unmapped_driver found bar_regs semaphores r) code)
  unfolding open_chip
  open_chip-unmapped r code failed =
      let inside : ltb 0 (length (some zeroed_bar_reg ∷ bar_regs)) ≡ true = ground arith in
      elim (Bool-cases (is_0 code)) [
        | inl e ↦ absurd (failed ((is_0_iff code).0 e))
        | inr e ↦ rw inside (rw e refl)
      ]

  abbrev read : PcieBarReg × ℤ
  read = pci_read_bar ioremap b.bar0 b.bar1 b.bar2 b.bar3 zeroed_bar_reg

  init_loop-unmapped :
      get_elem? boards 0 ≡ some b
      → read.1 ≢ pos 0
      → init_loop fuel images ioremap boards 1 0
          (allocated_driver found bar_regs semaphores)
          (pos 0)
        ≡ done (unmapped_driver found bar_regs semaphores read.0, read.1)
  unfolding init_loop init_round
  init_loop-unmapped first failed = rw (first, open_chip-unmapped read.0 read.1 failed) refl

null_unit :
    (i : ℕ)
    → (get_elem? {A = Option ProcessorUnitDev} (four none) i ≡ some none)
      ⊎ (get_elem? {A = Option ProcessorUnitDev} (four none) i ≡ none)
null_unit zero = inl refl
null_unit (suc i) = later_null none (suc i) (omega arith)

-- A region that is not memory: when `alloc_chrdev_region` succeeds, with one to four chips, the first of which has such a region,
-- `init_module` returns a code other than 0 and leaves the character device of chip 0 behind;
-- opening it goes through a null pointer, and so does any other, or past the end of the array.
pub init_module_unmapped :
    (fuel : ℕ) (images : Images) (ioremap : ℕ → ℕ → ℕ) (devs : List PciDev) (boards : List Board)
    (b : Board)
    → 0 < length (endpoints devs)
    → length (endpoints devs) ≤ 4
    → get_elem? boards 0 ≡ some b
    → ¬ (IsMemory b.bar0 × IsMemory b.bar1 × IsMemory b.bar2 × IsMemory b.bar3)
    → (d : Driver) × (r : ℤ) × (init_module fuel images ioremap devs boards (pos 0) ≡ done (d, r))
      × (r ≢ pos 0)
      × (d.cdev ≡ 0 ∷ [])
      × ((i : ℕ) → dpu_open true d.processor_unit_dev d.register_table i ≡ fault)
init_module_unmapped fuel images ioremap devs boards b some_chip room first unmapped =
    let (d, entered, filled) =
      init_module-init_loop fuel images ioremap boards devs some_chip room in
    let read : PcieBarReg × ℤ = pci_read_bar ioremap b.bar0 b.bar1 b.bar2 b.bar3 zeroed_bar_reg in
    let failed : read.1 ≢ pos 0 =
      λ e. unmapped ((pci_read_bar-0_iff ioremap b.bar0 b.bar1 b.bar2 b.bar3 zeroed_bar_reg).0 e) in
    (
      unmapped_driver (endpoints devs) filled.bar_regs filled.semaphores read.0,
      read.1,
      entered
          ∙ rw filled.driver (
              init_loop-unmapped fuel images ioremap boards (endpoints devs) filled.bar_regs
                filled.semaphores b first failed),
      failed,
      refl,
      λ i. dpu_open_null (four none) (four 0) i (null_unit i),
    )
