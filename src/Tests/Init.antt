-- ===== src/Tests/Init.antt =====
-- The theorems on init_module at concrete inputs.
use dspc8681_linux_driver.Base.{
  ℕ, ◌+◌, ◌<◌, ◌^◌, ◌≡◌, ◌≢◌, refl, arith, ℤ, pos, List, [], ◌∷◌, done, fault, true,
}
use dspc8681_linux_driver.BootLoader.Memory.{in_ll2, in_msmc, in_ddr}
use dspc8681_linux_driver.BootLoader.Upload.Correct.{IsMapped}
use dspc8681_linux_driver.BootLoader.Boot.{Images, addr_map}
use dspc8681_linux_driver.BootLoader.ThirdBl.{third_bl_code_u0}
use dspc8681_linux_driver.Entry.Init.Shipped.{CopiesInside, init_module-shipped}
use dspc8681_linux_driver.BootLoader.App4Core0.{app4_core0}
use dspc8681_linux_driver.BootLoader.Memory.Placement.{placement}
use dspc8681_linux_driver.BootLoader.Upload.Correct.{Fits}
use dspc8681_linux_driver.Tests.Data.{code, constants, code-IsSection, constants-IsSection}
use dspc8681_linux_driver.BootLoader.Boot.Pushes.{Runs}
use dspc8681_linux_driver.BootLoader.Boot.Verdict.{Verdict, TakesImages, images_events}
use dspc8681_linux_driver.Pcie.{PciDev, Bar}
use dspc8681_linux_driver.Pcie.Find.{endpoints}
use dspc8681_linux_driver.Entry.Files.{dpu_open}
use dspc8681_linux_driver.Entry.Init.{Board, Driver, resource_start, init_module}
use dspc8681_linux_driver.Entry.Init.Boards.{
  IsReady, OpensFirst, BootsFirst, first_events, image_zone, init_module-Verdict,
}
use dspc8681_linux_driver.Entry.Init.Booted.{memory_of, IsRemapped}
use dspc8681_linux_driver.Entry.Init.Unmapped.{init_module_unmapped}
use dspc8681_linux_driver.Entry.Init.Config.{IsConfigured, writes_to, Reachable-IsConfigured}
use dspc8681_linux_driver.Tests.Boot.{dsp, images}
use dspc8681_linux_driver.Tests.Device.{chip_from, chip_from-Reachable}
use dspc8681_linux_driver.BootLoader.Upload.Table.{table_bytes}

-- Two chips behind a bridge.
abbrev devices : List PciDev
devices =
    record { address = 1; class = 0x060400 }
    ∷ record { address = 2; class = 0x048000 }
    ∷ record { address = 3; class = 0x048000 }
    ∷ []

abbrev bar : ℕ → ℕ → ℕ → Bar
bar start len flags = record { start = start; len = len; flags = flags }

-- A chip with half a megabyte of L2 memory, a page of MSMC and a page of DDR.
abbrev board : ℕ → Board
board flags = record {
  bar0 = bar 0x10000 0x1000 0x200;
  bar1 = bar 0x1000000 0x80000 flags;
  bar2 = bar 0x2000000 0x1000 0x200;
  bar3 = bar 0x3000000 0x1000 0x200;
  mwi = pos 0;
  command = 0x0406;
  dma_vir_addr = 0xC8000000;
  dma_phy_addr = 0x12400000;
  ll2_word = λ _. 0;
  msmc_word = λ _. 0;
  ddr_word = λ _. 0;
  dsp = dsp;
}

abbrev ioremap : ℕ → ℕ → ℕ
ioremap start len = 0xF0000000 + start

board-IsRemapped : IsRemapped ioremap (board 0x200)
board-IsRemapped = (ground arith, ground arith, ground arith, ground arith)

board-IsMapped : IsMapped (memory_of (board 0x200))
board-IsMapped in_ll2 = omega arith
board-IsMapped in_msmc = omega arith
board-IsMapped in_ddr = omega arith

code_on_board : Fits (memory_of (board 0x200)) code
unfolding placement
code_on_board = record { region = in_ll2; index = 2; placed = refl; mapped = omega arith }

constants_on_board : Fits (memory_of (board 0x200)) constants
unfolding placement
constants_on_board = record { region = in_ddr; index = 4; placed = refl; mapped = omega arith }

-- The boot table of the tests, which has two sections, and images of a few bytes for the cores.
board-IsReady : IsReady 10 images (board 0x200)
board-IsReady = record {
  entry = 0x00800020;
  sections = code ∷ constants ∷ [];
  rest = [];
  bars_IsMemory = ground arith;
  table = refl;
  enough = omega arith;
  entry_IsWord = omega arith;
  memory_IsMapped = board-IsMapped;
  magic_mapped = omega arith;
  sections_IsSection = (code-IsSection, (constants-IsSection, tt));
  sections_Fits = (code_on_board, (constants_on_board, tt));
  core0_whole = refl;
}

board_zone : addr_map 0xC8000000 0x12400000 + 0x400000 < 2 ^ 32
unfolding addr_map
board_zone = ground arith

init_module-Verdict_example :
    Verdict
      (init_module 10 images ioremap devices (board 0x200 ∷ []) (pos 0))
      (λ d. OpensFirst (addr_map 0xC8000000 0x12400000) d × BootsFirst 10 images (board 0x200) d)
      (TakesImages dsp (image_zone (board 0x200)) images (first_events (board 0x200)))
      (Runs dsp (images_events (image_zone (board 0x200)) images (first_events (board 0x200))))
unfolding endpoints
init_module-Verdict_example =
    init_module-Verdict 10 images ioremap devices (board 0x200 ∷ []) (board 0x200) (omega arith)
      (omega arith) refl board-IsReady board-IsRemapped board_zone

-- What is left by loading the driver.
board_loaded :
    (d : Driver) × (code : ℤ) × (init_module 10 images ioremap devices (board 0x200 ∷ []) (pos 0)
      ≡ done (d, code))
unfolding endpoints
board_loaded =
    let verdict =
      init_module-Verdict 10 images ioremap devices (board 0x200 ∷ []) (board 0x200) (omega arith)
        (omega arith) refl board-IsReady board-IsRemapped board_zone in
    (verdict.state, verdict.code, verdict.returned)

-- After a call and an interrupt.
Reachable-IsConfigured_example :
    IsConfigured
      (resource_start (board 0x200))
      0x12400000
      (chip_from (writes_to 0 board_loaded.0.register_writes)).written_registers
unfolding endpoints table_bytes dspc8681_linux_driver.BootLoader.Upload.Table.sections_bytes
Reachable-IsConfigured_example =
    Reachable-IsConfigured 10 images ioremap devices (board 0x200 ∷ []) (board 0x200) board_loaded.0
      board_loaded.1 (chip_from (writes_to 0 board_loaded.0.register_writes)) (omega arith)
      (omega arith) (omega arith) refl (ground arith) board-IsRemapped (omega arith) board_loaded.2
      (chip_from-Reachable _)

-- The second region is of ports.
init_module_unmapped_example :
    (d : Driver) × (r : ℤ) × (init_module 10 images ioremap devices (board 0x100 ∷ []) (pos 0)
      ≡ done (d, r))
    × (r ≢ pos 0)
    × (d.cdev ≡ 0 ∷ [])
    × ((i : ℕ) → dpu_open true d.processor_unit_dev d.register_table i ≡ fault)
unfolding endpoints
init_module_unmapped_example =
    init_module_unmapped 10 images ioremap devices (board 0x100 ∷ []) (board 0x100) (omega arith)
      (omega arith) refl (λ p. p.1.0 refl)

-- The boot table and the image of core 0 of the build, and images of a few bytes for the others.
abbrev built : Images
built = record {
  dsp_init = third_bl_code_u0;
  core0 = app4_core0;
  core1 = images.core1;
  core2 = images.core2;
}

init_module-shipped_example :
    Verdict
      (init_module 5600 built ioremap devices (board 0x200 ∷ []) (pos 0))
      (λ d. OpensFirst 0xC8000000 d × CopiesInside 0xC8000000 d)
      (TakesImages dsp (image_zone (board 0x200)) built (first_events (board 0x200)))
      (Runs dsp (images_events (image_zone (board 0x200)) built (first_events (board 0x200))))
unfolding endpoints
init_module-shipped_example =
    init_module-shipped 5600 built ioremap devices (board 0x200 ∷ []) (board 0x200) (omega arith)
      refl refl (omega arith) (omega arith) (omega arith) (omega arith) refl (ground arith)
      board-IsRemapped board-IsMapped (omega arith) (omega arith) (omega arith) refl
