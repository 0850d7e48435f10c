-- ===== src/Entry/Init/Shipped.antt =====
-- Loading the driver with the boot table and the image of core 0 that it is built with.
use dspc8681_linux_driver.Base.{
  ℕ, ◌+◌, ◌^◌, ◌%◌, ◌≤◌, ◌<◌, ◌≡◌, ap, ◌∙◌, arith, IsWord, pos, length, get_elem?, List, [], All,
  some, Ends-done,
}
use dspc8681_linux_driver.BootLoader.Upload.Correct.{IsMapped}
use dspc8681_linux_driver.BootLoader.Boot.{Images, Host, addr_map}
use dspc8681_linux_driver.BootLoader.Boot.Address.{addr_map-start_iff}
use dspc8681_linux_driver.BootLoader.Boot.Pushes.{Runs}
use dspc8681_linux_driver.BootLoader.Boot.Verdict.{
  TakesImages, images_events, Verdict, Verdict-weaken,
}
use dspc8681_linux_driver.BootLoader.Boot.Zone.{IsInside, image_room, boot_loader-IsInside}
use dspc8681_linux_driver.BootLoader.ThirdBl.{third_bl_code_u0}
use dspc8681_linux_driver.BootLoader.ThirdBl.Table.{
  third_bl_sections, third_bl_code_u0-table, length-third_bl_code_u0,
}
use dspc8681_linux_driver.BootLoader.ThirdBl.Sections.{
  third_bl_sections-IsSection, third_bl_sections-Fits,
}
use dspc8681_linux_driver.BootLoader.App4Core0.{app4_core0}
use dspc8681_linux_driver.BootLoader.App4Core0.Size.{length-app4_core0}
use dspc8681_linux_driver.Pcie.{PciDev}
use dspc8681_linux_driver.Pcie.Find.{endpoints}
use dspc8681_linux_driver.Pcie.Map.{IsMemory}
use dspc8681_linux_driver.Entry.Init.{Board, Driver, init_module}
use dspc8681_linux_driver.Entry.Init.Boards.{
  IsReady, OpensFirst, first_events, image_zone, init_module-Verdict,
}
use dspc8681_linux_driver.Entry.Init.Booted.{memory_of, IsRemapped, fresh_host}

-- With half a megabyte of L2 memory and regions that are all memory.
third_bl_code_u0-IsReady :
    (fuel : ℕ) (images : Images) (b : Board)
    → images.dsp_init ≡ third_bl_code_u0
    → 4 < fuel
    → IsMemory b.bar0 × IsMemory b.bar1 × IsMemory b.bar2 × IsMemory b.bar3
    → IsMapped (memory_of b)
    → 0x80000 ≤ b.bar1.len
    → images.core0 ≡ app4_core0
    → IsReady fuel images b
third_bl_code_u0-IsReady fuel images b built enough bars mapped half core0 =
    let core0_size : length images.core0 ≡ 92824 = ap length core0 ∙ length-app4_core0 in
    record {
      entry = 0x00860000;
      sections = third_bl_sections;
      rest = [];
      bars_IsMemory = bars;
      table = built ∙ third_bl_code_u0-table;
      enough = enough;
      entry_IsWord = omega arith;
      memory_IsMapped = mapped;
      magic_mapped = omega arith;
      sections_IsSection = third_bl_sections-IsSection;
      sections_Fits = third_bl_sections-Fits (memory_of b) (omega arith);
      core0_whole = omega (arith, core0_size);
    }

-- What `bootLoader` copied for the chips that it was called for lies in the four megabytes from `base`
-- on.
abbrev pub CopiesInside : ℕ → Driver → Type 0
CopiesInside base d = All (λ (kept : ℕ × Host). All (IsInside base) kept.1.events) d.hosts

-- The driver as built: when `alloc_chrdev_region` succeeds, with the boot table and the image of core 0
-- of the build and images of the other cores that fit behind the registers, fuel for every eight bytes
-- of the boot table, and one to four chips, the first of which has regions that are all memory, mapped
-- by `ioremap` and no larger than their ranges of addresses, half a megabyte of L2 memory and a DMA zone
-- of four megabytes of 32-bit addresses at a megabyte, `init_module` returns 0 exactly when the first
-- chip's DSP takes the images and reports the cores, -4 exactly when it takes them and does not report
-- the cores, and -2 exactly when it does not take them; chip 0 alone can be opened, with its buffers in
-- the zone, and all that was copied lies in the zone.
pub init_module-shipped :
    (fuel : ℕ) (images : Images) (ioremap : ℕ → ℕ → ℕ) (devs : List PciDev) (boards : List Board)
    (b : Board)
    → 5600 ≤ fuel
    → images.dsp_init ≡ third_bl_code_u0
    → images.core0 ≡ app4_core0
    → length images.core1 ≤ image_room
    → length images.core2 ≤ image_room
    → 0 < length (endpoints devs)
    → length (endpoints devs) ≤ 4
    → get_elem? boards 0 ≡ some b
    → IsMemory b.bar0 × IsMemory b.bar1 × IsMemory b.bar2 × IsMemory b.bar3
    → IsRemapped ioremap b
    → IsMapped (memory_of b)
    → 0x80000 ≤ b.bar1.len
    → b.dma_vir_addr + 0x400000 < 2 ^ 32
    → IsWord b.dma_phy_addr
    → b.dma_phy_addr % 2 ^ 20 ≡ 0
    → Verdict
        (init_module fuel images ioremap devs boards (pos 0))
        (λ d. OpensFirst b.dma_vir_addr d × CopiesInside b.dma_vir_addr d)
        (TakesImages b.dsp (image_zone b) images (first_events b))
        (Runs b.dsp (images_events (image_zone b) images (first_events b)))
init_module-shipped fuel images ioremap devs boards b enough table core0 small1 small2 some_chip
      room first bars remapped mapped half zone word aligned =
    let start : addr_map b.dma_vir_addr b.dma_phy_addr ≡ b.dma_vir_addr =
      (addr_map-start_iff b.dma_vir_addr b.dma_phy_addr (omega arith) word).1 aligned in
    let core0_size : length images.core0 ≡ 92824 = ap length core0 ∙ length-app4_core0 in
    let table_size : length images.dsp_init ≡ 44700 = ap length table ∙ length-third_bl_code_u0 in
    Verdict-weaken
      (λ d left. (
        rw (← start) left.0,
        rw left.1.2 (
          Ends-done
              (boot_loader-IsInside fuel b.dsp images b.dma_vir_addr b.dma_phy_addr 0 (fresh_host b)
                (omega arith) (omega arith) word aligned (omega arith, (small1, (small2, tt))) tt)
              left.1.5,
          tt,
        ),
      ))
      (init_module-Verdict fuel images ioremap devs boards b some_chip room first
        (third_bl_code_u0-IsReady fuel images b table (omega arith) bars mapped half core0) remapped
        (omega arith))
