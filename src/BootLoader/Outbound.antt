-- ===== src/BootLoader/Outbound.antt =====
-- `dspMemoryMap` of src/bootLoader.c: the outbound window of the DSP into the host's memory.
pub mod Cover
use dspc8681_linux_driver.Base.{
  ℕ, leb, if◌then◌else◌, bit_and, bit_or, ℤ, pos, negsuc, List, [], ◌∷◌, Option, none, some,
}
use dspc8681_linux_driver.Registers.{IoWrite, iowrite32, ob_size, ob_offset_index, ob_offset_hi}

-- `obSize` and `baseMask` for a size; `none` is `retValue = -1`.
pub ob_window : ℕ → Option (ℕ × ℕ)
ob_window size =
    if leb size 0x100000
    then some (0x0, 0xFFF00000)
    else (if leb size 0x200000
        then some (0x1, 0xFFE00000)
        else (if leb size 0x400000
            then some (0x2, 0xFFC00000)
            else (if leb size 0x800000 then some (0x3, 0xFF800000) else none)))

-- The writes to the registers, and the value returned.
unfoldable pub dsp_memory_map : ℕ → ℕ → List IoWrite × ℤ
unfolding ob_window
dsp_memory_map pc_addr size = elim (ob_window size) [
  | none ↦ ([], negsuc 0)
  | some (ob, base_mask) ↦
      let page_base = bit_and pc_addr base_mask in
      (
        iowrite32 ob ob_size
            ∷ iowrite32 (bit_or page_base 0x1) (ob_offset_index 0)
            ∷ iowrite32 0x0 (ob_offset_hi 0)
            ∷ [],
        pos 0,
      )
]
