-- ===== src/Entry/Init/Alloc.antt =====
-- `init_module` up to its second loop.
use dspc8681_linux_driver.Base.{
  ℕ, zero, suc, ◌==◌, ◌≤◌, ◌<◌, ◌≡◌, ◌⊎◌, refl, inl, inr, arith, false, pos, List, [], ◌∷◌, length,
  get_elem?, Option, none, some, done,
}
use dspc8681_linux_driver.BootLoader.Boot.{Images}
use dspc8681_linux_driver.Pcie.{PciDev, PcieBarReg}
use dspc8681_linux_driver.Pcie.Find.{endpoints, pci_find_pci_devices-endpoints}
use dspc8681_linux_driver.Entry.Files.{ProcessorUnitDev}
use dspc8681_linux_driver.Entry.Init.{
  Board, Semaphores, Driver, unloaded, zeroed_bar_reg, alloc_loop, init_loop, init_module,
}

-- The first loop on up to four chips: the first entry of each array is filled.
abbrev pub allocated_driver :
    List PciDev → List (Option PcieBarReg) → List (Option Semaphores) → Driver
allocated_driver found bar_regs semaphores = record unloaded {
  pcie_dev = found;
  pcie_bar_reg = some zeroed_bar_reg ∷ bar_regs;
  semaphores = semaphores;
}

pub record Allocated (found : List PciDev) (d : Driver) : Type 0 where
  pub bar_regs : List (Option PcieBarReg)
  pub semaphores : List (Option Semaphores)
  pub driver : d ≡ allocated_driver found bar_regs semaphores
  pub first_made :
      get_elem? semaphores 0 ≡ some (some (record { write = 0; read = 0; dsp_dpm_over = 0 }))

alloc_loop-Allocated :
    (n : ℕ) (found : List PciDev)
    → 0 < n
    → n ≤ 4
    → (d : Driver) × (alloc_loop n 0 (record unloaded { pcie_dev = found }) ≡ done d)
      × Allocated found d
unfolding alloc_loop
alloc_loop-Allocated zero found p q = absurd (omega arith)
alloc_loop-Allocated (suc zero) found p q =
    (_, refl, record { bar_regs = _; semaphores = _; driver = refl; first_made = refl })
alloc_loop-Allocated (suc (suc zero)) found p q =
    (_, refl, record { bar_regs = _; semaphores = _; driver = refl; first_made = refl })
alloc_loop-Allocated (suc (suc (suc zero))) found p q =
    (_, refl, record { bar_regs = _; semaphores = _; driver = refl; first_made = refl })
alloc_loop-Allocated (suc (suc (suc (suc zero)))) found p q =
    (_, refl, record { bar_regs = _; semaphores = _; driver = refl; first_made = refl })
alloc_loop-Allocated (suc (suc (suc (suc (suc n))))) found p q = absurd (omega arith)

module _ (fuel : ℕ) (images : Images) (ioremap : ℕ → ℕ → ℕ) (boards : List Board) where
  -- The loop over chip 0 alone, after the first loop.
  pub init_module-init_loop :
      (devs : List PciDev)
      → 0 < length (endpoints devs)
      → length (endpoints devs) ≤ 4
      → (d : Driver) × (init_module fuel images ioremap devs boards (pos 0)
          ≡ init_loop fuel images ioremap boards 1 0 d (pos 0))
        × Allocated (endpoints devs) d
  unfolding init_module
  init_module-init_loop devs some_chip room =
      let (d, allocated, filled) =
        alloc_loop-Allocated (length (endpoints devs)) (endpoints devs) some_chip room in
      let found : (length (endpoints devs) == 0) ≡ false = ground arith in
      (d, rw (pci_find_pci_devices-endpoints 4 devs 0 room, found, allocated) refl, filled)

-- Opening a chip behind the first when only the first has a unit.
pub later_null :
    (u : Option ProcessorUnitDev) (i : ℕ)
    → 0 < i
    → (get_elem? (u ∷ none ∷ none ∷ none ∷ []) i ≡ some none)
      ⊎ (get_elem? (u ∷ none ∷ none ∷ none ∷ []) i ≡ none)
later_null u zero h = absurd (omega arith)
later_null u (suc zero) h = inl refl
later_null u (suc (suc zero)) h = inl refl
later_null u (suc (suc (suc zero))) h = inl refl
later_null u (suc (suc (suc (suc i)))) h = inr refl
