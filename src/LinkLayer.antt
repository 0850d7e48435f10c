-- ===== src/LinkLayer.antt =====
-- src/LinkLayer.c and inc/LinkLayer.h: the register table that the host and the DSP share, the
-- buffers behind it, and the handshake of each transfer.
pub mod Layout
pub mod Handshake
use dspc8681_linux_driver.Base.{
  ℕ, zero, suc, ◌+◌, ◌==◌, if◌then◌else◌, u32, ℤ, pos, negsuc, List, [], ◌∷◌, get_elem?, Option,
  none, some, Run, done, fault, ◌>>=◌, or_fault,
}
use dspc8681_linux_driver.Common.{poll_equal_value}
use dspc8681_linux_driver.Registers.{legacy_a_irq_status_raw, legacy_b_irq_status_raw}

-- The registers of the table, without the reserved words.
pub record LinkLayerRegisterTable : Type 0 where
  pub dpu_boot_status : ℕ
  pub set_multi_core_boot_status : ℕ
  pub multi_core_boot_status : ℕ
  pub write_status : ℕ
  pub read_status : ℕ
  pub get_pic_numers : ℕ
  pub fail_pic_numers : ℕ
  pub dpm_over_status : ℕ
  pub dpm_start_status : ℕ
  pub dpm_all_over_status : ℕ
  pub push_code_status : ℕ
  pub dpu_boot_control : ℕ
  pub write_control : ℕ
  pub read_control : ℕ
  pub pc_url_nums_reg : ℕ
  pub model_type : ℕ
  pub dpm_over_control : ℕ
  pub dpm_start_control : ℕ
  pub push_code_control : ℕ

-- `sizeof(LinkLayerRegisterTable)`: two pages of 0x1000 bytes.
abbrev pub register_table_size : ℕ
register_table_size = 0x2000

-- Pointers are 32-bit addresses.
pub record LinkLayerHandler : Type 0 where
  pub p_register_table : ℕ
  pub p_out_buffer : ℕ
  pub p_in_buffer : ℕ
  pub out_buffer_length : ℕ
  pub in_buffer_length : ℕ
  pub p_write_confirm_reg : ℕ
  pub p_read_confirm_reg : ℕ

-- `WTBUFLENGTH` and `RDBUFLENGTH`.
abbrev pub wtbuflength : ℕ
wtbuflength = 0x2000

abbrev pub rdbuflength : ℕ
rdbuflength = 0x3FC000

-- `LinkLayer_Open`, with the chip's entry of `gpRegisterTable` and `regVirt`.
abbrev pub handler_at : ℕ → ℕ → LinkLayerHandler
handler_at p_register_table reg_virt =
    let p_out_buffer = u32 (p_register_table + register_table_size) in
    record {
      p_register_table = p_register_table;
      p_out_buffer = p_out_buffer;
      p_in_buffer = u32 (p_out_buffer + wtbuflength);
      out_buffer_length = wtbuflength;
      in_buffer_length = rdbuflength;
      p_write_confirm_reg = u32 (reg_virt + legacy_b_irq_status_raw);
      p_read_confirm_reg = u32 (reg_virt + legacy_a_irq_status_raw);
    }

unfoldable pub link_layer_open : List ℕ → ℕ → ℕ → Run (LinkLayerHandler × ℤ)
link_layer_open gp_register_table chip_index reg_virt = do
  p_register_table ← or_fault (get_elem? gp_register_table chip_index)
  done (handler_at p_register_table reg_virt, pos 0)

-- `LinkLayer_Close`: the handlers that are freed, of the `left` entries from `chip_index` on; 0 is
-- `NULL`.
pub close_loop : ℕ → ℕ → List ℕ → Run (List ℕ)
close_loop zero chip_index p_handle = done []
close_loop (suc left) chip_index p_handle = do
  p ← or_fault (get_elem? p_handle chip_index)
  freed ← close_loop left (chip_index + 1) p_handle
  done (if p == 0 then freed else p ∷ freed)

pub link_layer_close : List ℕ → Run (List ℕ)
unfolding close_loop
link_layer_close p_handle = close_loop 4 0 p_handle

pub data LinklayerIoType : Type 0 where
  io_reserver io_write_reset io_write_qreset io_write_fin io_write_qfin : LinklayerIoType
  io_read_reset io_read_qreset io_read_fin io_read_qfin : LinklayerIoType

-- What the DSP sets, and what the host sets.
abbrev pub dsp_rd_reset : ℕ
dsp_rd_reset = 0x000055aa

abbrev pub dsp_rd_finish : ℕ
dsp_rd_finish = 0x550000aa

abbrev pub dsp_wt_reset : ℕ
dsp_wt_reset = 0x0000bb77

abbrev pub dsp_wt_finish : ℕ
dsp_wt_finish = 0xbb000077

abbrev pub pc_wt_reset : ℕ
pc_wt_reset = 0x0000aa55

abbrev pub pc_wt_finish : ℕ
pc_wt_finish = 0xaa000055

abbrev pub pc_rd_reset : ℕ
pc_rd_reset = 0x000077bb

abbrev pub pc_rd_finish : ℕ
pc_rd_finish = 0x770000bb

-- `pBufferStatus`, as the register of the table, and `readyValue`; `none` is a null pointer.
pub buffer_status : LinklayerIoType → Option ((LinkLayerRegisterTable → ℕ) × ℕ)
buffer_status io_write_qreset = some ((λ t. t.write_status), dsp_rd_reset)
buffer_status io_write_qfin = some ((λ t. t.write_status), dsp_rd_finish)
buffer_status io_read_qreset = some ((λ t. t.read_status), dsp_wt_reset)
buffer_status io_read_qfin = some ((λ t. t.read_status), dsp_wt_finish)
buffer_status io_reserver = none
buffer_status io_write_reset = none
buffer_status io_write_fin = none
buffer_status io_read_reset = none
buffer_status io_read_fin = none

-- `LinkLayer_WaitBufferReady`, where `table k` is the register table in round `k` of the poll. With
-- no register the first round reads through a null pointer.
pub link_layer_wait_buffer_ready : (ℕ → LinkLayerRegisterTable) → LinklayerIoType → ℕ → Run ℤ
link_layer_wait_buffer_ready table io_type pendtime = elim (buffer_status io_type) [
  | none ↦ if pendtime == 0 then done (negsuc 0) else fault
  | some (register, ready_value) ↦
      done (poll_equal_value (λ k. register (table k)) ready_value pendtime)
]

-- `LinkLayer_ChangeBufferStatus`: the table after it, and the value returned.
pub link_layer_change_buffer_status :
    LinklayerIoType → LinkLayerRegisterTable → LinkLayerRegisterTable × ℤ
link_layer_change_buffer_status io_write_reset t = (record t { write_control = pc_wt_reset }, pos 0)
link_layer_change_buffer_status io_write_fin t = (record t { write_control = pc_wt_finish }, pos 0)
link_layer_change_buffer_status io_read_reset t = (record t { read_control = pc_rd_reset }, pos 0)
link_layer_change_buffer_status io_read_fin t = (record t { read_control = pc_rd_finish }, pos 0)
link_layer_change_buffer_status io_reserver t = (t, pos 0)
link_layer_change_buffer_status io_write_qreset t = (t, pos 0)
link_layer_change_buffer_status io_write_qfin t = (t, pos 0)
link_layer_change_buffer_status io_read_qreset t = (t, pos 0)
link_layer_change_buffer_status io_read_qfin t = (t, pos 0)
