-- ===== src/Entry/Blocking.antt =====
-- The semaphores are taken and never given: who waits for one waits for ever.
use dspc8681_linux_driver.Base.{ℕ, ◌≡◌, refl, arith, List, done}
use dspc8681_linux_driver.Registers.{IoWrite}
use dspc8681_linux_driver.LinkLayer.{LinkLayerRegisterTable}
use dspc8681_linux_driver.Entry.{
  Chip, init_chip, waitdpm, write_timeout, read_timeout, blocked, down, change_status, dpu_ioctl,
  isr_handler, Step, calls, interrupts, shares, Reachable, starts, continues,
}
use dspc8681_linux_driver.Entry.Calls.{IsStable, dpu_ioctl-IsStable}

record AllTaken (c : Chip) : Type 0 where
  write_taken : c.write_semaphore ≡ 0
  read_taken : c.read_semaphore ≡ 0
  dpm_taken : c.dsp_dpm_over_semaphore ≡ 0

AllTaken-with_table :
    (c : Chip) (table : LinkLayerRegisterTable)
    → AllTaken c
    → AllTaken (record c { register_table = table })
AllTaken-with_table c table h = record {
  write_taken = h.write_taken;
  read_taken = h.read_taken;
  dpm_taken = h.dpm_taken;
}

AllTaken-IsStable : IsStable AllTaken
unfolding change_status
AllTaken-IsStable = record {
  changes = λ t c h. AllTaken-with_table c _ h;
  signals = λ c h. record {
    write_taken = h.write_taken;
    read_taken = h.read_taken;
    dpm_taken = h.dpm_taken;
  };
  takes_dpm = λ c n e h. absurd (omega (arith, e, h.dpm_taken));
  takes_write = λ c n e h. absurd (omega (arith, e, h.write_taken));
  takes_read = λ c n e h. absurd (omega (arith, e, h.read_taken));
}

Step-AllTaken : {c c' : Chip} → AllTaken c → Step c c' → AllTaken c'
unfolding isr_handler
Step-AllTaken {c} h (calls table command e) =
    dpu_ioctl-IsStable AllTaken AllTaken-IsStable table command c e h
Step-AllTaken h (interrupts c) = record {
  write_taken = h.write_taken;
  read_taken = h.read_taken;
  dpm_taken = h.dpm_taken;
}
Step-AllTaken h (shares c table) = AllTaken-with_table c table h

Reachable-AllTaken : {ws : List IoWrite} {c : Chip} → Reachable ws c → AllTaken c
unfolding init_chip
Reachable-AllTaken (starts table) = record {
  write_taken = refl;
  read_taken = refl;
  dpm_taken = refl;
}
Reachable-AllTaken (continues r s) = Step-AllTaken (Reachable-AllTaken r) s

-- In every state that the driver reaches, whatever `init_module` has written to the registers, the
-- commands `DPU_IO_CMD_WAITDPM`,
-- `DPU_IO_CMD_WRITE_TIMEOUT` and `DPU_IO_CMD_READ_TIMEOUT` wait for a semaphore that is 0: no call,
-- no interrupt and nothing that the DSP does to the register table lets one of them return.
pub Reachable-blocked :
    (ws : List IoWrite) (table : ℕ → LinkLayerRegisterTable) (c : Chip)
    → Reachable ws c
    → (dpu_ioctl table waitdpm c ≡ done blocked)
      × (dpu_ioctl table write_timeout c ≡ done blocked)
      × (dpu_ioctl table read_timeout c ≡ done blocked)
unfolding dpu_ioctl down
Reachable-blocked ws table c r =
    let taken : AllTaken c = Reachable-AllTaken r in
    (rw taken.dpm_taken refl, rw taken.write_taken refl, rw taken.read_taken refl)
