-- ===== src/Entry/Init/Config.antt =====
-- The application registers from `init_module` on.
use dspc8681_linux_driver.Base.{
  ℕ, zero, suc, ◌/◌, ◌<◌, ◌≤◌, ◌^◌, ◌+◌, ◌*◌, ◌≡◌, ◌≢◌, IsWord, ◌∙◌, ap, arith, u32, ◌==◌,
  if◌then◌else◌, ℤ, pos, List, [], ◌∷◌, ◌++◌, length, get_elem?, none, some, done, Ends-done,
  >>=-eq-done, refl, sym,
}
use dspc8681_linux_driver.Registers.{
  IoWrite, written, ep_irq_clr, legacy_a_irq_status_raw, legacy_a_irq_enable_set,
  legacy_b_irq_enable_set, legacy_a_irq_enable_clr, legacy_b_irq_enable_clr, ib_bar, ib_start_lo,
  ib_start_hi, ib_offset, pcie_base_address, ob_size, ob_offset_index, ob_offset_hi,
}
use dspc8681_linux_driver.BootLoader.Memory.{ll2_start, msmc_start, ddr_start}
use dspc8681_linux_driver.BootLoader.Outbound.{dsp_memory_map}
use dspc8681_linux_driver.BootLoader.Outbound.Cover.{dsp_memory_map_index}
use dspc8681_linux_driver.BootLoader.Boot.{Images, align_phy_addr}
use dspc8681_linux_driver.BootLoader.Boot.Address.{align_phy_addr_lem}
use dspc8681_linux_driver.BootLoader.Boot.Events.{IsKept, boot_loader-After}
use dspc8681_linux_driver.Pcie.{PciDev, pci_set_in_bound, pci_enable_dsp_interrupt}
use dspc8681_linux_driver.Pcie.Find.{endpoints}
use dspc8681_linux_driver.Pcie.Map.{IsMemory}
use dspc8681_linux_driver.Entry.{Chip, Reachable}
use dspc8681_linux_driver.Entry.Frame.{Reachable-written}
use dspc8681_linux_driver.Entry.Init.{Board, Driver, boot_writes, resource_start, init_module}
use dspc8681_linux_driver.Entry.Init.Booted.{
  IsRemapped, fresh_host, boot_first, booted_driver, init_module-booted,
}

-- The windows, and the interrupts of the DSP, which are enabled and were never disabled.
pub record IsConfigured (start : ℕ → ℕ) (dma_phy_addr : ℕ) (ws : List IoWrite) : Type 0 where
  pub bars : (i : ℕ) → i < 4 → written ws (ib_bar i) ≡ some i
  pub starts_lo : (i : ℕ) → i < 4 → written ws (ib_start_lo i) ≡ some (u32 (start i))
  pub starts_hi : (i : ℕ) → i < 4 → written ws (ib_start_hi i) ≡ some 0
  pub to_registers : written ws (ib_offset 0) ≡ some pcie_base_address
  pub to_ll2 : written ws (ib_offset 1) ≡ some (ll2_start + 2 ^ 28)
  pub to_msmc : written ws (ib_offset 2) ≡ some msmc_start
  pub to_ddr : written ws (ib_offset 3) ≡ some ddr_start
  pub outbound_size : written ws ob_size ≡ some 2
  pub outbound_index : written ws (ob_offset_index 0) ≡ some (dma_phy_addr / 2 ^ 22 * 2 ^ 22 + 1)
  pub outbound_hi : written ws (ob_offset_hi 0) ≡ some 0
  pub a_enabled : written ws legacy_a_irq_enable_set ≡ some 1
  pub b_enabled : written ws legacy_b_irq_enable_set ≡ some 1
  pub a_not_disabled : written ws legacy_a_irq_enable_clr ≡ none
  pub b_not_disabled : written ws legacy_b_irq_enable_clr ≡ none

-- The writes of `init_module` to the registers of the first chip.
abbrev pub init_writes : (ℕ → ℕ) → ℕ → List IoWrite
init_writes start dma_phy_addr =
    pci_set_in_bound start
    ++ (pci_enable_dsp_interrupt ++ (dsp_memory_map (align_phy_addr dma_phy_addr) 0x400000).0)

init_writes-IsConfigured :
    (start : ℕ → ℕ) (dma_phy_addr : ℕ)
    → IsWord dma_phy_addr
    → IsConfigured start dma_phy_addr (init_writes start dma_phy_addr)
unfolding pci_set_in_bound pci_enable_dsp_interrupt dsp_memory_map written
init_writes-IsConfigured start dma_phy_addr word = record {
  bars =
      below_4 (λ i. written (init_writes start dma_phy_addr) (ib_bar i) ≡ some i) refl refl refl
        refl;
  starts_lo =
      below_4 (λ i. written (init_writes start dma_phy_addr) (ib_start_lo i) ≡ some (u32 (start i)))
        refl refl refl refl;
  starts_hi =
      below_4 (λ i. written (init_writes start dma_phy_addr) (ib_start_hi i) ≡ some 0) refl refl
        refl refl;
  to_registers = refl;
  to_ll2 = refl;
  to_msmc = refl;
  to_ddr = refl;
  outbound_size = refl;
  outbound_index =
      dsp_memory_map_index (align_phy_addr dma_phy_addr)
        (omega (arith, align_phy_addr_lem dma_phy_addr word))
      ∙ ap some (omega (arith, align_phy_addr_lem dma_phy_addr word));
  outbound_hi = refl;
  a_enabled = refl;
  b_enabled = refl;
  a_not_disabled = refl;
  b_not_disabled = refl;
}
  where
    below_4 : (P : ℕ → Type 0) → P 0 → P 1 → P 2 → P 3 → (i : ℕ) → i < 4 → P i
    below_4 P p0 p1 p2 p3 zero h = p0
    below_4 P p0 p1 p2 p3 (suc zero) h = p1
    below_4 P p0 p1 p2 p3 (suc (suc zero)) h = p2
    below_4 P p0 p1 p2 p3 (suc (suc (suc zero))) h = p3
    below_4 P p0 p1 p2 p3 (suc (suc (suc (suc i)))) h = absurd (omega arith)

Configured-kept :
    (start : ℕ → ℕ) (dma_phy_addr : ℕ) (ws : List IoWrite) (c : Chip)
    → IsConfigured start dma_phy_addr ws
    → Reachable ws c
    → IsConfigured start dma_phy_addr c.written_registers
Configured-kept start dma_phy_addr ws c first r =
    let kept =
      λ (offset : ℕ) (p : offset / 4 ≢ ep_irq_clr / 4)
          (q : offset / 4 ≢ legacy_a_irq_status_raw / 4).
        Reachable-written ws offset r p q in
    record {
      bars = λ i h. kept (ib_bar i) (omega arith) (omega arith) ∙ first.bars i h;
      starts_lo = λ i h. kept (ib_start_lo i) (omega arith) (omega arith) ∙ first.starts_lo i h;
      starts_hi = λ i h. kept (ib_start_hi i) (omega arith) (omega arith) ∙ first.starts_hi i h;
      to_registers = kept (ib_offset 0) (omega arith) (omega arith) ∙ first.to_registers;
      to_ll2 = kept (ib_offset 1) (omega arith) (omega arith) ∙ first.to_ll2;
      to_msmc = kept (ib_offset 2) (omega arith) (omega arith) ∙ first.to_msmc;
      to_ddr = kept (ib_offset 3) (omega arith) (omega arith) ∙ first.to_ddr;
      outbound_size = kept ob_size (omega arith) (omega arith) ∙ first.outbound_size;
      outbound_index = kept (ob_offset_index 0) (omega arith) (omega arith) ∙ first.outbound_index;
      outbound_hi = kept (ob_offset_hi 0) (omega arith) (omega arith) ∙ first.outbound_hi;
      a_enabled = kept legacy_a_irq_enable_set (omega arith) (omega arith) ∙ first.a_enabled;
      b_enabled = kept legacy_b_irq_enable_set (omega arith) (omega arith) ∙ first.b_enabled;
      a_not_disabled =
          kept legacy_a_irq_enable_clr (omega arith) (omega arith) ∙ first.a_not_disabled;
      b_not_disabled =
          kept legacy_b_irq_enable_clr (omega arith) (omega arith) ∙ first.b_not_disabled;
    }

-- What `bootLoader` writes to the registers is the outbound window, whatever the DSP does.
boot_writes-IsKept :
    (ws : List IoWrite) (zone : ℕ) → IsKept (λ es. boot_writes es ≡ ws) (λ _. Unit {0}) zone
unfolding boot_writes
boot_writes-IsKept ws zone = record {
  pushes = λ v es e. e;
  polls = λ es e. e;
  copies = λ bytes es _ e. e;
}

-- The writes of `init_module` to the registers of chip `i`, in order.
pub writes_to : ℕ → List (ℕ × List IoWrite) → List IoWrite
writes_to i [] = []
writes_to i ((j, ws) ∷ rest) = if j == i then writes_to i rest ++ ws else writes_to i rest

module _ (fuel : ℕ) (images : Images) (ioremap : ℕ → ℕ → ℕ) (devs : List PciDev)
    (boards : List Board) (b : Board) where
  -- Whatever it returns, `init_module` has set the windows and enabled the interrupts.
  init_module-writes :
      (d : Driver) (code : ℤ)
      → length images.dsp_init < fuel * 8
      → 0 < length (endpoints devs)
      → length (endpoints devs) ≤ 4
      → get_elem? boards 0 ≡ some b
      → IsMemory b.bar0 × IsMemory b.bar1 × IsMemory b.bar2 × IsMemory b.bar3
      → IsRemapped ioremap b
      → init_module fuel images ioremap devs boards (pos 0) ≡ done (d, code)
      → writes_to 0 d.register_writes ≡ init_writes (resource_start b) b.dma_phy_addr
  unfolding writes_to boot_writes
  init_module-writes d code enough some_chip room first memory remapped returned =
      let (_, filled, ended) =
        init_module-booted fuel images ioremap boards devs b some_chip room first memory remapped in
      let ((host, boot_code), ran, left) =
        >>=-eq-done (boot_first fuel images b) _ (sym ended ∙ returned) in
      let same : booted_driver ioremap (endpoints devs) filled.bar_regs filled.semaphores b host
          ≡ d =
        cc in
      let boot : boot_writes host.events
          ≡ (dsp_memory_map (align_phy_addr b.dma_phy_addr) 0x400000).0 =
        Ends-done
          (boot_loader-After
            (λ es. boot_writes es ≡ (dsp_memory_map (align_phy_addr b.dma_phy_addr) 0x400000).0)
            (λ _. Unit {0}) fuel b.dsp images b.dma_vir_addr b.dma_phy_addr 0 (fresh_host b) enough
            (boot_writes-IsKept _ _) (λ _ _. tt, (λ _ _. tt, (λ _ _. tt, tt))) refl)
          ran in
      rw (← same) (rw boot refl)

  -- When `alloc_chrdev_region` succeeds, with one to four chips, the first of which has regions that are
  -- all memory and that `ioremap` maps, a 32-bit bus address of the DMA zone, and fuel for every eight
  -- bytes of the boot table: whenever `init_module` returns, with 0 or an error of `bootLoader`, the
  -- inbound and outbound windows of the first chip that it has set stand in every state that the driver
  -- reaches from there, and the interrupts of the DSP that it has enabled stand and were never disabled.
  pub Reachable-IsConfigured :
      (d : Driver) (code : ℤ) (c : Chip)
      → length images.dsp_init < fuel * 8
      → 0 < length (endpoints devs)
      → length (endpoints devs) ≤ 4
      → get_elem? boards 0 ≡ some b
      → IsMemory b.bar0 × IsMemory b.bar1 × IsMemory b.bar2 × IsMemory b.bar3
      → IsRemapped ioremap b
      → IsWord b.dma_phy_addr
      → init_module fuel images ioremap devs boards (pos 0) ≡ done (d, code)
      → Reachable (writes_to 0 d.register_writes) c
      → IsConfigured (resource_start b) b.dma_phy_addr c.written_registers
  Reachable-IsConfigured d code c enough some_chip room first memory remapped word returned r =
      let set = init_module-writes d code enough some_chip room first memory remapped returned in
      Configured-kept (resource_start b) b.dma_phy_addr (writes_to 0 d.register_writes) c
        (rw set (init_writes-IsConfigured (resource_start b) b.dma_phy_addr word)) r
