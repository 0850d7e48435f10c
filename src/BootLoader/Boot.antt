-- ===== src/BootLoader/Boot.antt =====
-- `bootLoader` of src/bootLoader.c: the initial code into the DSP's memory, then the images of the
-- cores one by one through the window in the host's memory, with the handshake of
-- inc/bootLoader.h. What the DSP does is a parameter: it sees all that the host did before.
pub mod Address
pub mod Codes
pub mod Events
pub mod Protocol
pub mod Pushes
pub mod Verdict
pub mod Zone
use dspc8681_linux_driver.Base.{
  ℕ, zero, suc, ◌+◌, ◌-◌, ◌*◌, ◌/◌, ◌^◌, leb, ltb, if◌then◌else◌, Bool, true, false, u32, bit_and,
  ℤ, pos, negsuc, List, [], ◌∷◌, length, take, set, Option, none, some, Run, done, fault, ◌>>=◌,
}
use dspc8681_linux_driver.Common.{poll_value, poll_compare_value}
use dspc8681_linux_driver.Registers.{IoWrite}
use dspc8681_linux_driver.BootLoader.Memory.{DspMemory}
use dspc8681_linux_driver.BootLoader.Upload.{upload_program}
use dspc8681_linux_driver.BootLoader.Outbound.{dsp_memory_map}

abbrev pub pc_pushcode_reset : ℕ
pc_pushcode_reset = 0x1

abbrev pub pc_pushcode_finish : ℕ
pc_pushcode_finish = 0x10

abbrev pub dsp_getcode_reset : ℕ
dsp_getcode_reset = 0x1

abbrev pub dsp_getcode_finish : ℕ
dsp_getcode_finish = 0x10

abbrev pub max_poll_count : ℕ
max_poll_count = 0xffffffff

-- `_thirdBLCode_U0`, `_app4Core0`, `_DPUCore1` and `_DPUCore2`.
pub record Images : Type 0 where
  pub dsp_init : List ℕ
  pub core0 : List ℕ
  pub core1 : List ℕ
  pub core2 : List ℕ

-- What the DSP can see of the host: the outbound window, a value of `pushCodeControl`, an image copied
-- to an address, and that a polling loop has ended.
pub data Event : Type 0 where
  mapped : List IoWrite → Event
  pushed : ℕ → Event
  copied : ℕ → List ℕ → Event
  polled : Event

-- The status registers, by what the host has done (the latest first) and the round of the loop.
pub record Dsp : Type 0 where
  pub push_code_status : List Event → ℕ → ℕ
  pub multi_core_boot_status : List Event → ℕ → ℕ

-- The memory of the DSP, `gpRegisterTable` and what the host has done.
pub record Host : Type 0 where
  pub memory : DspMemory
  pub register_table : List ℕ
  pub events : List Event

abbrev pub emit : Event → Host → Host
emit e h = record h { events = e ∷ h.events }

abbrev pub is_0 : ℤ → Bool
is_0 (pos zero) = true
is_0 (pos (suc n)) = false
is_0 (negsuc n) = false

-- `memcpy` of `n` bytes out of an array.
abbrev pub memcpy : List ℕ → ℕ → Run (List ℕ)
memcpy src n = if leb n (length src) then done (take n src) else fault

-- `pollValue` of `pushCodeStatus`.
pub wait_push_code : Dsp → ℕ → Host → ℤ
wait_push_code dsp v h = poll_value (dsp.push_code_status h.events) v max_poll_count

-- Steps 4 and 5, and the reset behind them.
pub finish_push : Dsp → Host → Host × ℤ
finish_push dsp h =
    let finished = emit (pushed pc_pushcode_finish) h in
    elim (is_0 (wait_push_code dsp dsp_getcode_finish finished)) [
      | true ↦ (emit (pushed pc_pushcode_reset) (emit polled finished), pos 0)
      | false ↦ (emit polled finished, negsuc 1)
    ]

-- From step 3 on, with `pPutDSPImgZone`.
pub write_out_buffer : Dsp → ℕ → List ℕ → ℕ → Host → Run (Host × ℤ)
write_out_buffer dsp zone code n h = do
  bytes ← memcpy code n
  done (finish_push dsp (emit (copied zone bytes) h))

-- The image of core 0, whose length is rounded up to whole words.
pub push_core0 : Dsp → ℕ → List ℕ → Host → Run (Host × ℤ)
push_core0 dsp zone code h =
    let reset = emit (pushed pc_pushcode_reset) h in
    elim (is_0 (wait_push_code dsp dsp_getcode_reset reset)) [
      | true ↦ write_out_buffer dsp zone code ((length code + 3) / 4 * 4) (emit polled reset)
      | false ↦ done (emit polled reset, negsuc 1)
    ]

-- The loop over `coreIndex`: what the first `pollValue` returns is not looked at.
pub push_cores : Dsp → ℕ → List (List ℕ) → Host → Run (Host × ℤ)
push_cores dsp zone [] h = done (h, pos 0)
push_cores dsp zone (code ∷ codes) h = do
  (h', ret_value) ←
      write_out_buffer dsp zone code (length code) (emit polled (emit (pushed pc_pushcode_reset) h))
  elim (is_0 ret_value) [ true ↦ push_cores dsp zone codes h' | false ↦ done (h', ret_value) ]

-- `pollCompareValue` of `setWhichCoreRun` and `MultiCoreBootStatus`.
pub wait_which_core_run : Dsp → Host → ℤ
wait_which_core_run dsp h =
    poll_compare_value (λ _. 0x07) (dsp.multi_core_boot_status h.events) max_poll_count

pub wait_cores : Dsp → Host → Run (Host × ℤ)
wait_cores dsp h = elim (is_0 (wait_which_core_run dsp h)) [
  | true ↦ done (emit polled h, pos 0)
  | false ↦ done (emit polled h, negsuc 3)
]

-- From the second push on. Core 0's image is pushed, then the others', then the cores are awaited.
pub boot_cores : Dsp → ℕ → Images → Host → Run (Host × ℤ)
boot_cores dsp zone images h = do
  (h1, pushed0) ← push_core0 dsp zone images.core0 h
  elim (is_0 pushed0) [
    | true ↦ push_cores dsp zone (images.core1 ∷ images.core2 ∷ []) h1 >>= λ (h2, pushed_all).
        elim (is_0 pushed_all) [ true ↦ wait_cores dsp h2 | false ↦ done (h2, pushed_all) ]
    | false ↦ done (h1, pushed0)
  ]

-- `alignPhyAddr`, and `addrMap2DSPPCIE` in 32-bit arithmetic.
abbrev pub align_phy_addr : ℕ → ℕ
align_phy_addr dma_phy_addr = bit_and dma_phy_addr 0xfff00000

unfoldable pub addr_map : ℕ → ℕ → ℕ
addr_map dma_vir_addr dma_phy_addr =
    u32 (dma_vir_addr + u32 (align_phy_addr dma_phy_addr + 2 ^ 32 - dma_phy_addr))

-- `pPutDSPImgZone`: behind the registers.
abbrev pub reg_len : ℕ
reg_len = 0x2000

abbrev pub put_dsp_img_zone : ℕ → ℕ
put_dsp_img_zone addr_map_2_dsp_pcie = u32 (addr_map_2_dsp_pcie + reg_len)

-- `bootLoader`, with the two addresses that `dma_alloc_coherent` gives; `fuel` is that of
-- `uploadProgram`. What `dspMemoryMap` and the wait for `DPUBootStatus` return is not looked at.
pub boot_loader : ℕ → Dsp → Images → ℕ → ℕ → ℕ → Host → Run (Host × ℤ)
boot_loader fuel dsp images dma_vir_addr dma_phy_addr processor_index h =
    if ltb processor_index (length h.register_table)
    then (do
      (m, ret_value) ← upload_program fuel h.memory images.dsp_init 0
      let uploaded : Host = record {
        memory = m;
        register_table = set h.register_table processor_index (addr_map dma_vir_addr dma_phy_addr);
        events = mapped (dsp_memory_map (align_phy_addr dma_phy_addr) 0x400000).0 ∷ h.events;
      }
      elim (is_0 ret_value) [
        | true ↦
            boot_cores dsp (put_dsp_img_zone (addr_map dma_vir_addr dma_phy_addr)) images
              (emit polled uploaded)
        | false ↦ done (uploaded, negsuc 0)
      ])
    else fault
