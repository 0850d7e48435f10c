-- ===== src/BootLoader/Memory.antt =====
-- `writeDSPMemory` of src/bootLoader.c, with the addresses of inc/DPURegs.h. The three windows of
-- the DSP that the host maps are arrays of words; a store outside a window is a fault.
pub mod Overlay
pub mod Placement
use dspc8681_linux_driver.Base.{
  ℕ, zero, suc, ◌+◌, ◌-◌, ◌/◌, ltb, leb, ◌==◌, if◌then◌else◌, bit_and, List, get_elem?, Option,
  none, some, Run, done, fault, ◌>>=◌, or_fault,
}

-- `LL2_START`, `MSMC_START`, `DDR_START` and `MAGIC_ADDR`.
abbrev pub ll2_start : ℕ
ll2_start = 0x00800000

abbrev pub msmc_start : ℕ
msmc_start = 0x0C000000

abbrev pub ddr_start : ℕ
ddr_start = 0x80000000

abbrev pub magic_addr : ℕ
magic_addr = 0x0087FFFC

-- A mapped window: how many words it has, and what they hold.
pub record Window : Type 0 where
  pub size : ℕ
  pub word : ℕ → ℕ

-- What `memVirt`, `msmcVirt` and `ddrVirt` of `pcieBarReg_t` point to.
pub record DspMemory : Type 0 where
  pub ll2 : Window
  pub msmc : Window
  pub ddr : Window

pub data Region : Type 0 where
  in_ll2 in_msmc in_ddr : Region

abbrev pub window : DspMemory → Region → Window
window m in_ll2 = m.ll2
window m in_msmc = m.msmc
window m in_ddr = m.ddr

abbrev pub set_window : DspMemory → Region → Window → DspMemory
set_window m in_ll2 w = record m { ll2 = w }
set_window m in_msmc w = record m { msmc = w }
set_window m in_ddr w = record m { ddr = w }

-- `*ptr = v` at word `index` of a window.
pub store : Window → ℕ → ℕ → Run Window
store w index v =
    if ltb index w.size
    then done (record w { word = λ j. if j == index then v else w.word j })
    else fault

-- `for (i = 0; i < length / 4; i++) { *ptr = buffer[i]; ptr++; }` with `left` rounds to go.
pub write_loop : ℕ → ℕ → ℕ → List ℕ → Window → Run Window
write_loop zero i ptr buffer w = done w
write_loop (suc left) i ptr buffer w = do
  v ← or_fault (get_elem? buffer i)
  w' ← store w ptr v
  write_loop left (i + 1) (ptr + 1) buffer w'

-- The `switch`: which window `ptr` points into, and at which word. `none` is an early `return 0`.
unfoldable pub locate : ℕ → ℕ → Option (Region × ℕ)
locate core_num dsp_mem_addr =
    if leb core_num 7
    then (let local_addr = bit_and dsp_mem_addr 0x00FFFFFF in
        if ltb local_addr ll2_start then none else some (in_ll2, (local_addr - ll2_start) / 4))
    else (if core_num == 8
        then (if ltb dsp_mem_addr msmc_start
            then none
            else some (in_msmc, (dsp_mem_addr - msmc_start) / 4))
        else (if core_num == 9
            then (if ltb dsp_mem_addr ddr_start
                then none
                else some (in_ddr, (dsp_mem_addr - ddr_start) / 4))
            else none))

-- The stores through `ptr`, once it is known.
pub write_at : DspMemory → Option (Region × ℕ) → List ℕ → ℕ → Run (DspMemory × ℕ)
write_at m none buffer length = done (m, 0)
write_at m (some (region, index)) buffer length = do
  w ← write_loop (length / 4) 0 index buffer (window m region)
  done (set_window m region w, length)

-- The memory after the call, and the value returned.
pub write_dsp_memory : DspMemory → ℕ → ℕ → List ℕ → ℕ → Run (DspMemory × ℕ)
write_dsp_memory m core_num dsp_mem_addr buffer length =
    if length == 0 then done (m, 0) else write_at m (locate core_num dsp_mem_addr) buffer length
