-- ===== src/Entry/Alone.antt =====
-- The handshake while the DSP is silent.
use dspc8681_linux_driver.Base.{ℕ, ◌≡◌, ◌↔◌, ℤ, Option, done}
use dspc8681_linux_driver.LinkLayer.{LinkLayerRegisterTable, LinklayerIoType}
use dspc8681_linux_driver.LinkLayer.Handshake.{IsReady, link_layer_change_buffer_status-IsReady}
use dspc8681_linux_driver.Entry.{Chip, Command, returned, change_status, dpu_ioctl, isr_handler}
use dspc8681_linux_driver.Entry.Calls.{IsStable, dpu_ioctl-IsStable}

-- Calls that return and interrupts, with nothing else written to the register table.
pub data Alone : Chip → Chip → Type 0 where
  begins : (c : Chip) → Alone c c
  calls :
      {c c' : Chip} (table : ℕ → LinkLayerRegisterTable) (command : Command) {c'' : Chip}
      {status : Option ℤ} {value : ℤ}
      → Alone c c'
      → dpu_ioctl table command c' ≡ done (returned c'' status value)
      → Alone c c''
  interrupts : {c c' : Chip} → Alone c c' → Alone c (isr_handler c')

abbrev pub Answered : LinklayerIoType → Chip → Type 0
Answered wait c = IsReady wait c.register_table.write_status c.register_table.read_status

module _ (wait : LinklayerIoType) where
  -- The answer is as it was in `c`.
  abbrev AsIn : Chip → Chip → Type 0
  AsIn c c' = Answered wait c' ↔ Answered wait c

  AsIn-IsStable : (c : Chip) → IsStable (AsIn c)
  unfolding change_status
  AsIn-IsStable c = record {
    changes = λ t c' h.
        let same = link_layer_change_buffer_status-IsReady t wait c'.register_table in
        (λ p. h.0 (same.0 p), λ p. same.1 (h.1 p));
    signals = λ c' h. h;
    takes_dpm = λ c' n e h. h;
    takes_write = λ c' n e h. h;
    takes_read = λ c' n e h. h;
  }

  -- However many calls return and interrupts arrive while the DSP is silent, the answer that a wait
  -- looks for is there at the end exactly when it was there at the start: nothing that the driver
  -- writes answers one of its own waits or undoes an answer.
  pub Alone-Answered : {c c' : Chip} → Alone c c' → Answered wait c' ↔ Answered wait c
  unfolding isr_handler
  Alone-Answered (begins c) = (λ e. e, λ e. e)
  Alone-Answered {c} (calls {c' = c'} table command before e) =
      dpu_ioctl-IsStable (AsIn c) (AsIn-IsStable c) table command c' e (Alone-Answered before)
  Alone-Answered (interrupts before) = Alone-Answered before
