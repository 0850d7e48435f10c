-- ===== src/BootLoader/Upload.antt =====
-- `uploadProgram` of src/bootLoader.c: the boot table, section by section, into the DSP's memory.
-- A pointer into the table is the rest of it.
pub mod Table
pub mod Transfer
pub mod Correct
pub mod Fuel
pub mod Contents
pub mod Order
use dspc8681_linux_driver.Base.{
  ℕ, zero, suc, ◌+◌, ◌-◌, ◌*◌, ◌/◌, ltb, ◌==◌, ◌||◌, if◌then◌else◌, u32, shr, bit_and, ℤ, pos,
  negsuc, List, [], ◌∷◌, drop, true, false, Run, done, spent, ◌>>=◌, or_fault,
}
use dspc8681_linux_driver.Common.{byte_to_32bits}
use dspc8681_linux_driver.BootLoader.Memory.{DspMemory, magic_addr, write_dsp_memory}

abbrev pub block_transfer_size : ℕ
block_transfer_size = 0x100

-- `byteTo32bits(pDspImg); pDspImg += 4;`
pub read_word : List ℕ → Run (ℕ × List ℕ)
read_word p = do w ← or_fault (byte_to_32bits p); done (w, drop 4 p)

-- The loops over `j`: the words that `tempArray` has from its start on. What stood in the array
-- behind them is not read again.
pub read_words : ℕ → List ℕ → Run (List ℕ × List ℕ)
unfolding read_word
read_words zero p = done ([], p)
read_words (suc left) p = do
  (w, p') ← read_word p
  (ws, p'') ← read_words left p'
  done (w ∷ ws, p'')

-- Where the upload stands: the memory, `secStartAddr` and `pDspImg`.
pub record Progress : Type 0 where
  pub memory : DspMemory
  pub sec_start_addr : ℕ
  pub image : List ℕ

-- The loop over `i`, one block of 256 bytes a round. What `writeDSPMemory` returns is not looked at.
pub transfer_blocks : ℕ → ℕ → Progress → Run Progress
unfolding read_words
transfer_blocks core_num zero s = done s
transfer_blocks core_num (suc left) s = do
  (temp_array, p) ← read_words (block_transfer_size / 4) s.image
  (m, _) ← write_dsp_memory s.memory core_num s.sec_start_addr temp_array block_transfer_size
  transfer_blocks core_num left (record {
    memory = m;
    sec_start_addr = u32 (s.sec_start_addr + block_transfer_size);
    image = p;
  })

-- Which memory a section goes to, by its address.
unfoldable pub new_core_num : ℕ → ℕ → ℕ
new_core_num core_num sec_start_addr =
    let temp = shr (bit_and sec_start_addr 0xFF000000) 24 in
    if temp == 0x00 || shr temp 4 == 0x1
    then (if ltb core_num 8 then core_num else 0)
    else (if temp == 0x0C then 8 else 9)

-- The size in bytes, rounded up to whole words.
pub adjust_size : ℕ → ℕ
adjust_size sec_size =
    if sec_size / 4 * 4 == sec_size then sec_size else u32 ((sec_size / 4 + 1) * 4)

-- One section, from its start address to the size of the next.
pub transfer_section : ℕ → ℕ → DspMemory → List ℕ → Run (DspMemory × ℕ × List ℕ)
unfolding transfer_blocks new_core_num
transfer_section core_num sec_size m image = do
  (start, p) ← read_word image
  let core = new_core_num core_num start
  let count = sec_size / block_transfer_size
  let remainder = sec_size - count * block_transfer_size
  s ← transfer_blocks core count (record { memory = m; sec_start_addr = start; image = p })
  (temp_array, p') ← read_words (remainder / 4) s.image
  (m', _) ← write_dsp_memory s.memory core s.sec_start_addr temp_array remainder
  (next_size, p'') ← read_word p'
  done (m', next_size, p'')

-- The loop over the sections, on fuel: a section takes at least eight bytes of the table.
pub upload_sections : ℕ → ℕ → ℕ → DspMemory → List ℕ → Run DspMemory
upload_sections zero core_num sec_size m image = spent
upload_sections (suc fuel) core_num sec_size m image = elim (sec_size == 0) [
  | true ↦ done m
  | false ↦ transfer_section core_num (adjust_size sec_size) m image >>= λ (m', next_size, p).
      upload_sections fuel core_num next_size m' p
]

-- `uploadProgram`: the memory after it, and the value returned.
pub upload_program : ℕ → DspMemory → List ℕ → ℕ → Run (DspMemory × ℤ)
upload_program fuel m dsp_img_array core_num = do
  (boot_entry_addr, p) ← read_word dsp_img_array
  (sec_size, p') ← read_word p
  m' ← upload_sections fuel core_num sec_size m p'
  (m'', ret_value) ← write_dsp_memory m' 0 magic_addr (boot_entry_addr ∷ []) 4
  done (m'', (if ret_value == 4 then pos 0 else negsuc 0))
