-- ===== src/Tests/Boot.antt =====
-- The theorems on dspMemoryMap and bootLoader at concrete inputs.
use dspc8681_linux_driver.BootLoader.Boot.Pushes.{Runs}
use dspc8681_linux_driver.BootLoader.Boot.Verdict.{
  Verdict, Keeps, TakesImages, images_events, boot_loader-Verdict,
}
use dspc8681_linux_driver.Base.{
  ℕ, ◌+◌, ◌≡◌, ◌↔◌, ◌/◌, ◌%◌, ◌^◌, ◌≤◌, length, All, set, Ends, refl, arith, ℤ, pos, List, [], ◌∷◌,
  some, done,
}
use dspc8681_linux_driver.BootLoader.Memory.{in_ll2}
use dspc8681_linux_driver.BootLoader.Memory.Overlay.{overlay_memory}
use dspc8681_linux_driver.BootLoader.Memory.Placement.{magic_index}
use dspc8681_linux_driver.BootLoader.Upload.Table.{table_bytes}
use dspc8681_linux_driver.BootLoader.Upload.Correct.{load}
use dspc8681_linux_driver.BootLoader.Outbound.Cover as Cover
use dspc8681_linux_driver.BootLoader.Outbound.Cover.{dsp_memory_map-Window}
use dspc8681_linux_driver.Registers.{written, ob_offset_index}
use dspc8681_linux_driver.BootLoader.Outbound.{dsp_memory_map}
use dspc8681_linux_driver.BootLoader.Boot.{
  Images, Event, mapped, polled, Dsp, Host, align_phy_addr, addr_map, put_dsp_img_zone, boot_loader,
}
use dspc8681_linux_driver.BootLoader.Boot.Address.{addr_map-start_iff, dsp_memory_map-start_iff}
use dspc8681_linux_driver.BootLoader.Boot.Codes.{IsBootCode, boot_loader-IsBootCode}
use dspc8681_linux_driver.BootLoader.Boot.Protocol.{
  Cooperates, push_events, cores_events, boot_loader-boots,
}
use dspc8681_linux_driver.BootLoader.Boot.Zone.{
  IsInside, image_room, boot_loader-AllInside, boot_loader-IsInside_iff,
}
use dspc8681_linux_driver.Tests.Data.{
  digits, memory, memory-IsMapped, code, constants, code-IsSection, constants-IsSection, code-Fits,
  constants-Fits,
}

dsp_memory_map-Window_example : Cover.Window 0x12300000 0x400000
dsp_memory_map-Window_example =
    dsp_memory_map-Window 0x12300000 0x400000 (omega arith) (omega arith)

addr_map-start_iff_example :
    (addr_map 0xC8000000 0x12340000 ≡ 0xC8000000) ↔ (0x12340000 % 2 ^ 20 ≡ 0)
addr_map-start_iff_example = addr_map-start_iff 0xC8000000 0x12340000 (omega arith) (omega arith)

dsp_memory_map-start_iff_example :
    (written (dsp_memory_map (align_phy_addr 0x12300000) 0x400000).0 (ob_offset_index 0)
      ≡ some (align_phy_addr 0x12300000 + 1))
    ↔ (0x12300000 / 2 ^ 20 % 4 ≡ 0)
dsp_memory_map-start_iff_example = dsp_memory_map-start_iff 0x12300000 (omega arith)

-- A DSP that answers by echoing the last value pushed, and images of a few bytes.
abbrev echo : List Event → ℕ → ℕ
echo [] k = 0
echo (mapped ws ∷ es) k = 0
echo (Event.pushed v ∷ es) k = v
echo (Event.copied address bytes ∷ es) k = 0
echo (polled ∷ es) k = 0

abbrev pub dsp : Dsp
dsp = record { push_code_status = echo; multi_core_boot_status = λ es k. 0x07 }

dsp-Cooperates : Cooperates dsp
dsp-Cooperates = record {
  gets_reset = λ es. (0, omega arith, ground arith);
  gets_code = λ es. (0, omega arith, ground arith);
  runs = λ es. (0, omega arith, refl);
}

abbrev pub images : Images
images = record {
  dsp_init = table_bytes 0x00800020 (code ∷ constants ∷ []) [];
  core0 = 1 ∷ 2 ∷ 3 ∷ 4 ∷ [];
  core1 = 5 ∷ [];
  core2 = 6 ∷ 7 ∷ [];
}

abbrev host : Host
host = record { memory = memory; register_table = 0 ∷ 0 ∷ 0 ∷ 0 ∷ []; events = [] }

boot_loader-boots_example :
    boot_loader 3 dsp images 0xC8000000 0x12400000 2 host
    ≡ done (
      record {
        memory =
            overlay_memory
              (load memory (code ∷ constants ∷ []))
              in_ll2
              magic_index
              (0x00800020 ∷ []);
        register_table = set host.register_table 2 (addr_map 0xC8000000 0x12400000);
        events =
            polled
            ∷ cores_events
                (put_dsp_img_zone (addr_map 0xC8000000 0x12400000))
                (images.core1 ∷ images.core2 ∷ [])
                (push_events
                  (put_dsp_img_zone (addr_map 0xC8000000 0x12400000))
                  images.core0
                  (polled ∷ mapped (dsp_memory_map (align_phy_addr 0x12400000) 0x400000).0 ∷ []));
      },
      pos 0,
    )
boot_loader-boots_example =
    boot_loader-boots 3 dsp images 0xC8000000 0x12400000 2 host 0x00800020 (code ∷ constants ∷ [])
      [] refl (omega arith) (omega arith) memory-IsMapped (omega arith)
      (code-IsSection, (constants-IsSection, tt)) (code-Fits, (constants-Fits, tt)) refl
      (omega arith) dsp-Cooperates

abbrev bad_images : Images
bad_images = record { dsp_init = digits; core0 = []; core1 = []; core2 = [] }

boot_loader-IsBootCode_example :
    Ends (λ r. IsBootCode r.1) (boot_loader 2 dsp bad_images 0xC8000000 0x12400000 2 host)
boot_loader-IsBootCode_example =
    boot_loader-IsBootCode 2 dsp bad_images 0xC8000000 0x12400000 2 host (omega arith)

boot_loader-Verdict_example :
    Verdict
      (boot_loader 3 dsp images 0xC8000000 0x12400000 2 host)
      (Keeps
        (overlay_memory (load memory (code ∷ constants ∷ [])) in_ll2 magic_index (0x00800020 ∷ []))
        (set host.register_table 2 (addr_map 0xC8000000 0x12400000)))
      (TakesImages dsp
        (put_dsp_img_zone (addr_map 0xC8000000 0x12400000))
        images
        (polled ∷ mapped (dsp_memory_map (align_phy_addr 0x12400000) 0x400000).0 ∷ []))
      (Runs dsp (
        images_events
          (put_dsp_img_zone (addr_map 0xC8000000 0x12400000))
          images
          (polled ∷ mapped (dsp_memory_map (align_phy_addr 0x12400000) 0x400000).0 ∷ [])))
boot_loader-Verdict_example =
    boot_loader-Verdict 3 dsp images 0xC8000000 0x12400000 2 host 0x00800020 (code ∷ constants ∷ [])
      [] refl (omega arith) (omega arith) memory-IsMapped (omega arith)
      (code-IsSection, (constants-IsSection, tt)) (code-Fits, (constants-Fits, tt)) refl
      (omega arith)

boot_loader-AllInside_example :
    (h' : Host) × (r : ℤ) × (boot_loader 10 dsp images 0xC8000000 0x12400000 2 host ≡ done (h', r))
    × All (IsInside 0xC8000000) h'.events
unfolding table_bytes dspc8681_linux_driver.BootLoader.Upload.Table.sections_bytes
boot_loader-AllInside_example =
    boot_loader-AllInside 10 dsp images 0xC8000000 0x12400000 2 host 0x00800020
      (code ∷ constants ∷ []) [] refl (omega arith) (omega arith) (omega arith) memory-IsMapped
      (omega arith) (code-IsSection, (constants-IsSection, tt)) (code-Fits, (constants-Fits, tt))
      refl (omega arith) (omega arith) (omega arith) refl
      (omega arith, (omega arith, (omega arith, tt))) tt

boot_loader-IsInside_iff_example :
    (h' : Host) × (boot_loader 3 dsp images 0xC8000000 0x12400000 2 host ≡ done (h', pos 0))
    × (All (IsInside 0xC8000000) h'.events
        ↔ All
            (λ (code : List ℕ). length code ≤ image_room)
            (images.core0 ∷ images.core1 ∷ images.core2 ∷ []))
boot_loader-IsInside_iff_example =
    boot_loader-IsInside_iff 3 dsp images 0xC8000000 0x12400000 2 host 0x00800020
      (code ∷ constants ∷ []) [] refl (omega arith) (omega arith) memory-IsMapped (omega arith)
      (code-IsSection, (constants-IsSection, tt)) (code-Fits, (constants-Fits, tt)) refl
      (omega arith) dsp-Cooperates (omega arith) (omega arith) refl tt
