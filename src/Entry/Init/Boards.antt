-- ===== src/Entry/Init/Boards.antt =====
-- What `init_module` leaves, and what can be opened then.
use dspc8681_linux_driver.Base.{
  ℕ, ◌+◌, ◌/◌, ◌%◌, ◌++◌, ◌^◌, ◌≤◌, ◌<◌, ◌≡◌, refl, ◌∙◌, arith, true, ℤ, pos, List, [], ◌∷◌, length,
  get_elem?, set, All, Option, none, some, done, fault, IsWord,
}
use dspc8681_linux_driver.BootLoader.Memory.Placement.{magic_index}
use dspc8681_linux_driver.BootLoader.Outbound.{dsp_memory_map}
use dspc8681_linux_driver.BootLoader.Upload.Table.{Section, IsSection, table_bytes}
use dspc8681_linux_driver.BootLoader.Upload.Correct.{IsMapped, Fits}
use dspc8681_linux_driver.BootLoader.Boot.{
  Images, Event, mapped, polled, Host, addr_map, align_phy_addr, put_dsp_img_zone,
}
use dspc8681_linux_driver.BootLoader.Boot.Pushes.{Runs}
use dspc8681_linux_driver.BootLoader.Boot.Verdict.{
  TakesImages, images_events, Verdict, boot_loader-Verdict,
}
use dspc8681_linux_driver.LinkLayer.{LinkLayerHandler}
use dspc8681_linux_driver.LinkLayer.Layout.{Layout}
use dspc8681_linux_driver.Pcie.{pci_set_in_bound, pci_enable_dsp_interrupt, PciDev, PcieBarReg}
use dspc8681_linux_driver.Pcie.Find.{endpoints}
use dspc8681_linux_driver.Pcie.Map.{IsMemory}
use dspc8681_linux_driver.Entry.Files.{ProcessorUnitDev, dpu_open, dpu_open-Layout, dpu_open_null}
use dspc8681_linux_driver.Entry.Init.{
  Board, Semaphores, Driver, four, boot_writes, resource_start, init_module,
}
use dspc8681_linux_driver.Entry.Init.Alloc.{later_null}
use dspc8681_linux_driver.Entry.Init.Booted.{
  memory_of, IsRemapped, fresh_host, booted_driver, boot_first, init_module-booted,
}

-- A chip whose regions are all memory, and images that fit it.
pub record IsReady (fuel : ℕ) (images : Images) (b : Board) : Type 0 where
  pub entry : ℕ
  pub sections : List Section
  pub rest : List ℕ
  pub bars_IsMemory : IsMemory b.bar0 × IsMemory b.bar1 × IsMemory b.bar2 × IsMemory b.bar3
  pub table : images.dsp_init ≡ table_bytes entry sections rest
  pub enough : length sections < fuel
  pub entry_IsWord : IsWord entry
  pub memory_IsMapped : IsMapped (memory_of b)
  pub magic_mapped : magic_index < b.bar1.len / 4
  pub sections_IsSection : All IsSection sections
  pub sections_Fits : All (Fits (memory_of b)) sections
  pub core0_whole : length images.core0 % 4 ≡ 0

-- What can be opened: chip 0, with its buffers in the four megabytes from `base` on, and no other.
pub record OpensFirst (base : ℕ) (d : Driver) : Type 0 where
  pub handler : LinkLayerHandler
  pub opened : dpu_open true d.processor_unit_dev d.register_table 0 ≡ done (some handler, pos 0)
  pub layout : Layout base handler
  pub others_null : (i : ℕ) → 0 < i → dpu_open true d.processor_unit_dev d.register_table i ≡ fault
  pub minors : d.cdev ≡ 0 ∷ []

-- The events before the first push.
abbrev pub first_events : Board → List Event
first_events b = polled ∷ mapped (dsp_memory_map (align_phy_addr b.dma_phy_addr) 0x400000).0 ∷ []

-- Where the images are copied to.
abbrev pub image_zone : Board → ℕ
image_zone b = put_dsp_img_zone (addr_map b.dma_vir_addr b.dma_phy_addr)

booted-OpensFirst :
    (ioremap : ℕ → ℕ → ℕ) (found : List PciDev) (bar_regs : List (Option PcieBarReg))
    (semaphores : List (Option Semaphores)) (b : Board) (host : Host) (base : ℕ)
    → host.register_table ≡ set (four 0) 0 base
    → base + 0x400000 < 2 ^ 32
    → OpensFirst base (booted_driver ioremap found bar_regs semaphores b host)
booted-OpensFirst ioremap found bar_regs semaphores b host base table zone =
    let unit : ProcessorUnitDev = record {
      dev_minor = 0;
      reg_virt = ioremap b.bar0.start b.bar0.len;
    } in
    let units : List (Option ProcessorUnitDev) = some unit ∷ none ∷ none ∷ none ∷ [] in
    let (h, opened, layout) =
      dpu_open-Layout units host.register_table 0 base unit refl (rw table refl) zone in
    record {
      handler = h;
      opened = opened;
      layout = layout;
      others_null =
          λ i later. dpu_open_null units host.register_table i (later_null (some unit) i later);
      minors = refl;
    }

-- What is kept of chip 0 is what `bootLoader` left on it; its inbound windows are set and its interrupts
-- enabled before what `bootLoader` wrote, and its semaphores are made with 0.
abbrev pub BootsFirst : ℕ → Images → Board → Driver → Type 0
BootsFirst fuel images b d =
    (host : Host) × (code : ℤ) × (d.hosts ≡ (0, host) ∷ [])
    × (d.register_writes
        ≡ (
          0,
          pci_set_in_bound (resource_start b)
              ++ (pci_enable_dsp_interrupt ++ boot_writes host.events),
        )
          ∷ [])
    × (get_elem? d.semaphores 0 ≡ some (some (record { write = 0; read = 0; dsp_dpm_over = 0 })))
    × (boot_first fuel images b ≡ done (host, code))

-- Loading the driver: when `alloc_chrdev_region` succeeds, with one to four chips, the first of which is
-- ready, has its regions mapped by `ioremap` and has its DMA zone at the start of four megabytes of
-- 32-bit addresses, `init_module` returns 0 exactly when the first chip's DSP takes the images and
-- reports the cores, -4 exactly when it takes them and does not report the cores, and -2 exactly when
-- it does not take them. In each case chip 0 has the memory and the events that `bootLoader` left, its
-- inbound windows are set, its interrupts enabled and its semaphores made with 0; it can be opened,
-- with its buffers in that zone, and opening any other chip goes through a null pointer or past the end
-- of the array: the loop is over chip 0 alone.
pub init_module-Verdict :
    (fuel : ℕ) (images : Images) (ioremap : ℕ → ℕ → ℕ) (devs : List PciDev) (boards : List Board)
    (b : Board)
    → 0 < length (endpoints devs)
    → length (endpoints devs) ≤ 4
    → get_elem? boards 0 ≡ some b
    → IsReady fuel images b
    → IsRemapped ioremap b
    → addr_map b.dma_vir_addr b.dma_phy_addr + 0x400000 < 2 ^ 32
    → Verdict
        (init_module fuel images ioremap devs boards (pos 0))
        (λ d. OpensFirst (addr_map b.dma_vir_addr b.dma_phy_addr) d × BootsFirst fuel images b d)
        (TakesImages b.dsp (image_zone b) images (first_events b))
        (Runs b.dsp (images_events (image_zone b) images (first_events b)))
init_module-Verdict fuel images ioremap devs boards b some_chip room first ready remapped zone =
    let (_, filled, ended) =
      init_module-booted fuel images ioremap boards devs b some_chip room first ready.bars_IsMemory
        remapped in
    let verdict =
      boot_loader-Verdict fuel b.dsp images b.dma_vir_addr b.dma_phy_addr 0 (fresh_host b)
        ready.entry ready.sections ready.rest ready.table ready.enough ready.entry_IsWord
        ready.memory_IsMapped ready.magic_mapped ready.sections_IsSection ready.sections_Fits
        ready.core0_whole (omega arith) in
    record {
      state =
          booted_driver ioremap (endpoints devs) filled.bar_regs filled.semaphores b verdict.state;
      code = verdict.code;
      returned = ended ∙ rw verdict.returned refl;
      left = (
        booted-OpensFirst ioremap (endpoints devs) filled.bar_regs filled.semaphores b verdict.state
            (addr_map b.dma_vir_addr b.dma_phy_addr) verdict.left.1 zone,
        (verdict.state, verdict.code, refl, refl, filled.first_made, verdict.returned),
      );
      success = verdict.success;
      cores_not_running = verdict.cores_not_running;
      code_not_taken = verdict.code_not_taken;
    }
