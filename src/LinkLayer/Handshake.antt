-- ===== src/LinkLayer/Handshake.antt =====
-- When a wait for a buffer succeeds, and what a change of the status changes.
use dspc8681_linux_driver.Base.{
  ℕ, ◌==◌, ◌≡◌, ◌↔◌, if◌then◌else◌, refl, ℤ, negsuc, none, done, fault,
}
use dspc8681_linux_driver.Common.Poll.{Reports, BeforeLast, poll_equal_value-Reports}
use dspc8681_linux_driver.LinkLayer.{
  LinkLayerRegisterTable, LinklayerIoType, io_reserver, io_write_reset, io_write_qreset,
  io_write_fin, io_write_qfin, io_read_reset, io_read_qreset, io_read_fin, io_read_qfin,
  dsp_rd_reset, dsp_rd_finish, dsp_wt_reset, dsp_wt_finish, buffer_status,
  link_layer_wait_buffer_ready, link_layer_change_buffer_status,
}

-- The types that wait, and the answer that each waits for, by `writeStatus` and `readStatus`.
abbrev pub IsWait : LinklayerIoType → Type 0
IsWait io_write_qreset = Unit
IsWait io_write_qfin = Unit
IsWait io_read_qreset = Unit
IsWait io_read_qfin = Unit
IsWait io_reserver = ⊥
IsWait io_write_reset = ⊥
IsWait io_write_fin = ⊥
IsWait io_read_reset = ⊥
IsWait io_read_fin = ⊥

abbrev pub IsReady : LinklayerIoType → ℕ → ℕ → Type 0
IsReady io_write_qreset w r = w ≡ dsp_rd_reset
IsReady io_write_qfin w r = w ≡ dsp_rd_finish
IsReady io_read_qreset w r = r ≡ dsp_wt_reset
IsReady io_read_qfin w r = r ≡ dsp_wt_finish
IsReady io_reserver w r = ⊥
IsReady io_write_reset w r = ⊥
IsReady io_write_fin w r = ⊥
IsReady io_read_reset w r = ⊥
IsReady io_read_fin w r = ⊥

-- `LinkLayer_WaitBufferReady` with a type that waits returns 0 when the DSP's answer is seen in a
-- round before the last of `pendtime`, and -1 when it is not.
pub link_layer_wait_buffer_ready-Reports :
    (table : ℕ → LinkLayerRegisterTable) (io_type : LinklayerIoType) (pendtime : ℕ)
    → IsWait io_type
    → (r : ℤ) × (link_layer_wait_buffer_ready table io_type pendtime ≡ done r)
      × Reports r
          (BeforeLast pendtime (λ k. IsReady io_type (table k).write_status (table k).read_status))
unfolding link_layer_wait_buffer_ready buffer_status
link_layer_wait_buffer_ready-Reports table io_write_qreset pendtime h =
    (_, refl, poll_equal_value-Reports (λ k. (table k).write_status) dsp_rd_reset pendtime)
link_layer_wait_buffer_ready-Reports table io_write_qfin pendtime h =
    (_, refl, poll_equal_value-Reports (λ k. (table k).write_status) dsp_rd_finish pendtime)
link_layer_wait_buffer_ready-Reports table io_read_qreset pendtime h =
    (_, refl, poll_equal_value-Reports (λ k. (table k).read_status) dsp_wt_reset pendtime)
link_layer_wait_buffer_ready-Reports table io_read_qfin pendtime h =
    (_, refl, poll_equal_value-Reports (λ k. (table k).read_status) dsp_wt_finish pendtime)
link_layer_wait_buffer_ready-Reports table io_reserver pendtime h = elim h [ ]
link_layer_wait_buffer_ready-Reports table io_write_reset pendtime h = elim h [ ]
link_layer_wait_buffer_ready-Reports table io_write_fin pendtime h = elim h [ ]
link_layer_wait_buffer_ready-Reports table io_read_reset pendtime h = elim h [ ]
link_layer_wait_buffer_ready-Reports table io_read_fin pendtime h = elim h [ ]

buffer_status-none : (io_type : LinklayerIoType) → ¬ IsWait io_type → buffer_status io_type ≡ none
unfolding buffer_status
buffer_status-none io_write_qreset other = absurd (other tt)
buffer_status-none io_write_qfin other = absurd (other tt)
buffer_status-none io_read_qreset other = absurd (other tt)
buffer_status-none io_read_qfin other = absurd (other tt)
buffer_status-none io_reserver other = refl
buffer_status-none io_write_reset other = refl
buffer_status-none io_write_fin other = refl
buffer_status-none io_read_reset other = refl
buffer_status-none io_read_fin other = refl

-- With any other type it reads through a null pointer, unless it does not poll at all.
pub link_layer_wait_buffer_ready_null :
    (table : ℕ → LinkLayerRegisterTable) (io_type : LinklayerIoType) (pendtime : ℕ)
    → ¬ IsWait io_type
    → link_layer_wait_buffer_ready table io_type pendtime
      ≡ (if pendtime == 0 then done (negsuc 0) else fault)
unfolding link_layer_wait_buffer_ready
link_layer_wait_buffer_ready_null table io_type pendtime other =
    rw (buffer_status-none io_type other, link_layer_wait_buffer_ready) refl

-- What the host changes never answers one of its own waits, nor undoes an answer.
pub link_layer_change_buffer_status-IsReady :
    (io_type wait : LinklayerIoType) (t : LinkLayerRegisterTable)
    → IsReady wait
        (link_layer_change_buffer_status io_type t).0.write_status
        (link_layer_change_buffer_status io_type t).0.read_status
      ↔ IsReady wait t.write_status t.read_status
unfolding link_layer_change_buffer_status
link_layer_change_buffer_status-IsReady io_reserver wait t = (λ e. e, λ e. e)
link_layer_change_buffer_status-IsReady io_write_reset wait t = (λ e. e, λ e. e)
link_layer_change_buffer_status-IsReady io_write_qreset wait t = (λ e. e, λ e. e)
link_layer_change_buffer_status-IsReady io_write_fin wait t = (λ e. e, λ e. e)
link_layer_change_buffer_status-IsReady io_write_qfin wait t = (λ e. e, λ e. e)
link_layer_change_buffer_status-IsReady io_read_reset wait t = (λ e. e, λ e. e)
link_layer_change_buffer_status-IsReady io_read_qreset wait t = (λ e. e, λ e. e)
link_layer_change_buffer_status-IsReady io_read_fin wait t = (λ e. e, λ e. e)
link_layer_change_buffer_status-IsReady io_read_qfin wait t = (λ e. e, λ e. e)
