-- ===== src/Entry/Answers.antt =====
-- What the caller of `DPU_ioctl` learns.
use dspc8681_linux_driver.Base.{ℕ, ◌≡◌, refl, ℤ, pos, none, some, done}
use dspc8681_linux_driver.Common.Poll.{Reports, BeforeLast}
use dspc8681_linux_driver.LinkLayer.{LinkLayerRegisterTable, LinklayerIoType}
use dspc8681_linux_driver.LinkLayer.Handshake.{
  IsWait, IsReady, link_layer_wait_buffer_ready-Reports,
}
use dspc8681_linux_driver.Entry.{Chip, waitbufferready, waitdpmstart, returned, dpu_ioctl}

-- For a type that waits, `DPU_IO_CMD_WAITBUFFERREADY` returns 0 and copies 0 to the caller exactly
-- when the DSP's answer is seen in a round before the last, and -1 exactly when it is not.
-- `DPU_IO_CMD_WAITDPMSTART` returns the same 0 in both cases and copies nothing.
pub dpu_ioctl-Reports :
    (table : ℕ → LinkLayerRegisterTable) (wait_type : LinklayerIoType) (pend_time : ℕ) (c : Chip)
    → IsWait wait_type
    → (dpu_ioctl table (waitdpmstart (some (wait_type, pend_time))) c
        ≡ done (returned c none (pos 0)))
      × ((r : ℤ) × (dpu_ioctl table (waitbufferready (some (wait_type, pend_time))) c
            ≡ done (returned c (some r) (pos 0)))
          × Reports r (
              BeforeLast pend_time
                (λ k. IsReady wait_type (table k).write_status (table k).read_status)))
unfolding dpu_ioctl
dpu_ioctl-Reports table wait_type pend_time c h =
    let (r, ready, reports) = link_layer_wait_buffer_ready-Reports table wait_type pend_time h in
    (rw ready refl, (r, rw ready refl, reports))
