-- ===== src/Entry.antt =====
-- src/entry.c, for one chip: the commands of `DPU_ioctl`, the interrupt handler, and the semaphores
-- that `init_module` makes.
pub mod Calls
pub mod Blocking
pub mod Answers
pub mod Outcomes
pub mod Frame
pub mod Alone
pub mod Files
pub mod Init
use dspc8681_linux_driver.Base.{
  ℕ, zero, suc, ◌≡◌, Bool, true, false, if◌then◌else◌, ℤ, pos, negsuc, List, [], ◌∷◌, ◌++◌, Option,
  none, some, Run, done, ◌>>=◌, or_fault,
}
use dspc8681_linux_driver.Registers.{IoWrite, iowrite32, legacy_a_irq_status_raw}
use dspc8681_linux_driver.LinkLayer.{
  LinkLayerRegisterTable, LinklayerIoType, link_layer_wait_buffer_ready,
  link_layer_change_buffer_status,
}
use dspc8681_linux_driver.Pcie.{pci_clear_dsp_interrupt}

-- The register table of the chip, its three semaphores, and what was written to its application
-- registers, in order.
pub record Chip : Type 0 where
  pub register_table : LinkLayerRegisterTable
  pub write_semaphore : ℕ
  pub read_semaphore : ℕ
  pub dsp_dpm_over_semaphore : ℕ
  pub written_registers : List IoWrite

-- A chip behind `init_module`, which has written `ws` to its registers and made its three semaphores by
-- `sema_init` with 0.
pub init_chip : LinkLayerRegisterTable → List IoWrite → Chip
init_chip table ws = record {
  register_table = table;
  write_semaphore = 0;
  read_semaphore = 0;
  dsp_dpm_over_semaphore = 0;
  written_registers = ws;
}

-- A command with what its argument points to: `none` is an argument that points to no readable memory,
-- `NULL` among them. `other` is a number that the `switch` does not list.
pub data Command : Type 0 where
  waitbufferready : Option (LinklayerIoType × ℕ) → Command
  changebufferstatus : Option LinklayerIoType → Command
  interrupt waitdpm : Command
  waitdpmstart : Option (LinklayerIoType × ℕ) → Command
  write_timeout read_timeout : Command
  changereg : Option LinklayerIoType → Command
  changoverreg : Option LinklayerIoType → Command
  other : Command

-- A call returns, with the chip, what it copied to `*pBufStatus` and its value, or waits in `down`
-- for a semaphore that is 0.
pub data Outcome : Type 0 where
  returned : Chip → Option ℤ → ℤ → Outcome
  blocked : Outcome

pub down : ℕ → Option ℕ
down zero = none
down (suc n) = some n

-- `LinkLayer_ChangeBufferStatus` on the chip; what it returns is only printed.
pub change_status : LinklayerIoType → Chip → Chip
change_status io_type c = record c {
  register_table = (link_layer_change_buffer_status io_type c.register_table).0;
}

-- `DPU_ioctl`, where `table k` is the register table in round `k` of a poll.
unfoldable pub dpu_ioctl : (ℕ → LinkLayerRegisterTable) → Command → Chip → Run Outcome
unfolding down change_status
dpu_ioctl table (waitbufferready param) c = do
  (wait_type, pend_time) ← or_fault param
  state_code ← link_layer_wait_buffer_ready table wait_type pend_time
  done (returned c (some state_code) (pos 0))
dpu_ioctl table (changebufferstatus flag) c = do
  io_type ← or_fault flag
  done (returned (change_status io_type c) none (pos 0))
dpu_ioctl table interrupt c = done (
    returned
      (record c {
        written_registers = c.written_registers ++ iowrite32 1 legacy_a_irq_status_raw ∷ [];
      })
      none (pos 0))
dpu_ioctl table waitdpm c = elim (down c.dsp_dpm_over_semaphore) [
  | none ↦ done blocked
  | some n ↦ done (returned (record c { dsp_dpm_over_semaphore = n }) none (pos 0))
]
dpu_ioctl table (waitdpmstart param) c = do
  (wait_type, pend_time) ← or_fault param
  state_code ← link_layer_wait_buffer_ready table wait_type pend_time
  done (returned c none (pos 0))
dpu_ioctl table write_timeout c = elim (down c.write_semaphore) [
  | none ↦ done blocked
  | some n ↦ done (returned (record c { write_semaphore = n }) none (pos 0))
]
dpu_ioctl table read_timeout c = elim (down c.read_semaphore) [
  | none ↦ done blocked
  | some n ↦ done (returned (record c { read_semaphore = n }) none (pos 0))
]
dpu_ioctl table (changereg flag) c = do
  io_type ← or_fault flag
  done (returned (change_status io_type c) none (pos 0))
dpu_ioctl table (changoverreg flag) c = do
  io_type ← or_fault flag
  done (returned (change_status io_type c) none (pos 0))
dpu_ioctl table other c = done (returned c none (pos 0))

-- `ISR_handler`: the status that it reads is only printed.
pub isr_handler : Chip → Chip
isr_handler c = record c { written_registers = c.written_registers ++ pci_clear_dsp_interrupt }

-- A step of the running driver: a call that returns, an interrupt, or a change of the register
-- table by the DSP or by a program that has mapped it.
pub data Step : Chip → Chip → Type 0 where
  calls :
      (table : ℕ → LinkLayerRegisterTable) (command : Command) {c c' : Chip} {status : Option ℤ}
      {value : ℤ}
      → dpu_ioctl table command c ≡ done (returned c' status value)
      → Step c c'
  interrupts : (c : Chip) → Step c (isr_handler c)
  shares :
      (c : Chip) (table : LinkLayerRegisterTable) → Step c (record c { register_table = table })

-- The states that the driver reaches from the end of `init_module`, which has written `ws` to the
-- registers of the chip.
pub data Reachable (ws : List IoWrite) : Chip → Type 0 where
  starts : (table : LinkLayerRegisterTable) → Reachable ws (init_chip table ws)
  continues : {c c' : Chip} → Reachable ws c → Step c c' → Reachable ws c'
