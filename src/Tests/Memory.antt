-- ===== src/Tests/Memory.antt =====
-- The theorems on writeDSPMemory and uploadProgram at concrete inputs.
use mathlib.Core.Quot
use dspc8681_linux_driver.BootLoader.Memory.{DspMemory, Region}
use dspc8681_linux_driver.BootLoader.Upload.Contents.{Contents, upload_program-Contents}
use dspc8681_linux_driver.BootLoader.Upload.Order.{IsApart, swap, upload_program-order}
use dspc8681_linux_driver.Base.{
  ℕ, sym, ap, ◌∙◌, inl, Option, none, ◌≡◌, ◌≢◌, refl, arith, pos, [], ◌∷◌, some, done, fault, spent,
}
use dspc8681_linux_driver.BootLoader.Memory.{in_ll2, in_ddr, locate, write_dsp_memory}
use dspc8681_linux_driver.BootLoader.Memory.Overlay.{
  overlay_memory, write_dsp_memory_lem, write_dsp_memory_overrun,
}
use dspc8681_linux_driver.BootLoader.Memory.Placement.{placement, locate-new_core_num, magic_index}
use dspc8681_linux_driver.BootLoader.Upload.{new_core_num, upload_program}
use dspc8681_linux_driver.BootLoader.Upload.Table.{table_bytes}
use dspc8681_linux_driver.BootLoader.Upload.Correct.{load, upload_program-load}
use dspc8681_linux_driver.BootLoader.Upload.Fuel.{upload_program-terminates}
use dspc8681_linux_driver.BootLoader.ThirdBl.{third_bl_code_u0}
use dspc8681_linux_driver.BootLoader.ThirdBl.Load.{Loaded, upload_program-third_bl_code_u0}
use dspc8681_linux_driver.Tests.Data.{
  digits, memory, memory-IsMapped, code, constants, code-IsSection, constants-IsSection, code-Fits,
  constants-Fits,
}

upload_program-load_example :
    upload_program 3 memory (table_bytes 0x00800020 (code ∷ constants ∷ []) []) 1
    ≡ done (
      overlay_memory (load memory (code ∷ constants ∷ [])) in_ll2 magic_index (0x00800020 ∷ []),
      pos 0,
    )
upload_program-load_example =
    upload_program-load 3 1 0x00800020 memory (code ∷ constants ∷ []) [] (omega arith) (omega arith)
      memory-IsMapped (omega arith) (code-IsSection, (constants-IsSection, tt))
      (code-Fits, (constants-Fits, tt))

upload_program-terminates_example : upload_program 2 memory digits 0 ≢ spent
upload_program-terminates_example = upload_program-terminates 2 memory digits 0 (omega arith)

locate-new_core_num_example : locate (new_core_num 1 0x11800008) 0x11800008 ≡ placement 0x11800008
locate-new_core_num_example = locate-new_core_num 1 0x11800008 (omega arith)

write_dsp_memory_lem_example :
    write_dsp_memory memory 9 0x80000010 (7 ∷ 8 ∷ []) 8
    ≡ done (overlay_memory memory in_ddr 4 (7 ∷ 8 ∷ []), 8)
unfolding locate
write_dsp_memory_lem_example =
    write_dsp_memory_lem memory 9 0x80000010 4 in_ddr (7 ∷ 8 ∷ []) 8 refl refl (omega arith)

write_dsp_memory_overrun_example : write_dsp_memory memory 9 0x80000FFC (7 ∷ 8 ∷ []) 8 ≡ fault
unfolding locate
write_dsp_memory_overrun_example =
    write_dsp_memory_overrun memory 9 0x80000FFC 0x3FF in_ddr (7 ∷ 8 ∷ []) 8 refl refl (omega arith)
      (omega arith)

upload_program-Contents_example :
    (m' : DspMemory) × (upload_program 3 memory
        (table_bytes 0x00800020 (code ∷ constants ∷ []) [])
        1
      ≡ done (m', pos 0))
    × Contents memory m' 0x00800020 (code ∷ constants ∷ [])
upload_program-Contents_example =
    upload_program-Contents 3 1 0x00800020 memory (code ∷ constants ∷ []) [] (omega arith)
      (omega arith) memory-IsMapped (omega arith) (code-IsSection, (constants-IsSection, tt))
      (code-Fits, (constants-Fits, tt))

-- The code is in the L2 memory and the constants are in DDR.
code_constants-IsApart : IsApart code constants
unfolding placement
code_constants-IsApart p q a b at_code at_constants =
    inl λ e. absurd (regions (ap region at_constants ∙ e ∙ sym (ap region at_code)))
  where
    region : Option (Region × ℕ) → Region
    region none = in_ll2
    region (some (r, i)) = r

    regions : in_ddr ≢ in_ll2
    regions e = cc

upload_program-order_example :
    upload_program 3 memory (table_bytes 0x00800020 (code ∷ constants ∷ []) []) 1
    ≡ upload_program 3 memory (table_bytes 0x00800020 (constants ∷ code ∷ []) (0 ∷ [])) 2
upload_program-order_example =
    upload_program-order 3 1 2 0x00800020 memory (code ∷ constants ∷ []) (constants ∷ code ∷ []) []
      (0 ∷ []) (omega arith) (omega arith) (omega arith) memory-IsMapped (omega arith)
      (code-IsSection, (constants-IsSection, tt)) (code-Fits, (constants-Fits, tt))
      (constants-IsSection, (code-IsSection, tt)) (constants-Fits, (code-Fits, tt))
      (Quot.sound (swap [] code constants [] code_constants-IsApart))

upload_program-third_bl_code_u0_example :
    (m' : DspMemory) × (upload_program 5 memory third_bl_code_u0 3 ≡ done (m', pos 0))
    × Loaded memory m'
upload_program-third_bl_code_u0_example =
    upload_program-third_bl_code_u0 5 3 memory (omega arith) memory-IsMapped (omega arith)
