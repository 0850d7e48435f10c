-- ===== src/Entry/Calls.antt =====
-- What every call of `DPU_ioctl` that returns keeps.
use mathlib.Core.Path.{subst}
use dspc8681_linux_driver.Base.{
  ℕ, zero, suc, ◌≡◌, refl, ℤ, pos, [], ◌∷◌, ◌++◌, Option, none, some, Run, done, fault, spent,
  ◌>>=◌,
}
use dspc8681_linux_driver.Registers.{iowrite32, legacy_a_irq_status_raw}
use dspc8681_linux_driver.LinkLayer.{
  LinkLayerRegisterTable, LinklayerIoType, link_layer_wait_buffer_ready,
}
use dspc8681_linux_driver.Entry.{
  Chip, Command, waitbufferready, changebufferstatus, interrupt, waitdpm, waitdpmstart,
  write_timeout, read_timeout, changereg, changoverreg, other, Outcome, returned, blocked, down,
  change_status, dpu_ioctl,
}

-- What a call may do to a chip keeps `P`.
pub record IsStable (P : Chip → Type 0) : Type 0 where
  pub changes : (t : LinklayerIoType) (c : Chip) → P c → P (change_status t c)
  pub signals :
      (c : Chip)
      → P c
      → P (record c {
        written_registers = c.written_registers ++ iowrite32 1 legacy_a_irq_status_raw ∷ [];
      })
  pub takes_dpm :
      (c : Chip) (n : ℕ)
      → c.dsp_dpm_over_semaphore ≡ suc n
      → P c
      → P (record c { dsp_dpm_over_semaphore = n })
  pub takes_write :
      (c : Chip) (n : ℕ) → c.write_semaphore ≡ suc n → P c → P (record c { write_semaphore = n })
  pub takes_read :
      (c : Chip) (n : ℕ) → c.read_semaphore ≡ suc n → P c → P (record c { read_semaphore = n })

module _ (P : Chip → Type 0) where
  -- `P` holds after a call, if it returns.
  After : Run Outcome → Type 0
  After (done (returned c status value)) = P c
  After (done blocked) = Unit
  After fault = Unit
  After spent = Unit

  After-wait :
      (m : Run ℤ) (status : ℤ → Option ℤ) (c : Chip)
      → P c
      → After (m >>= λ r. done (returned c (status r) (pos 0)))
  unfolding After
  After-wait (done r) status c h = h
  After-wait fault status c h = tt
  After-wait spent status c h = tt

  After-down :
      (n : ℕ) (taken : ℕ → Chip)
      → ((m : ℕ) → n ≡ suc m → P (taken m))
      → After
          (elim (down n) [ none ↦ done blocked | some m ↦ done (returned (taken m) none (pos 0)) ])
  unfolding After down
  After-down zero taken h = tt
  After-down (suc n) taken h = h n refl

  dpu_ioctl-After :
      IsStable P
      → (table : ℕ → LinkLayerRegisterTable) (command : Command) (c : Chip) → P c
      → After (dpu_ioctl table command c)
  unfolding dpu_ioctl After
  dpu_ioctl-After s table (waitbufferready none) c h = tt
  dpu_ioctl-After s table (waitbufferready (some (t, n))) c h =
      After-wait (link_layer_wait_buffer_ready table t n) some c h
  dpu_ioctl-After s table (waitdpmstart none) c h = tt
  dpu_ioctl-After s table (waitdpmstart (some (t, n))) c h =
      After-wait (link_layer_wait_buffer_ready table t n) (λ _. none) c h
  dpu_ioctl-After s table interrupt c h = s.signals c h
  dpu_ioctl-After s table waitdpm c h =
      After-down c.dsp_dpm_over_semaphore (λ n. record c { dsp_dpm_over_semaphore = n })
        (λ n e. s.takes_dpm c n e h)
  dpu_ioctl-After s table write_timeout c h =
      After-down c.write_semaphore (λ n. record c { write_semaphore = n })
        (λ n e. s.takes_write c n e h)
  dpu_ioctl-After s table read_timeout c h =
      After-down c.read_semaphore (λ n. record c { read_semaphore = n })
        (λ n e. s.takes_read c n e h)
  dpu_ioctl-After s table (changebufferstatus none) c h = tt
  dpu_ioctl-After s table (changebufferstatus (some t)) c h = s.changes t c h
  dpu_ioctl-After s table (changereg none) c h = tt
  dpu_ioctl-After s table (changereg (some t)) c h = s.changes t c h
  dpu_ioctl-After s table (changoverreg none) c h = tt
  dpu_ioctl-After s table (changoverreg (some t)) c h = s.changes t c h
  dpu_ioctl-After s table other c h = h

  pub dpu_ioctl-IsStable :
      IsStable P
      → (table : ℕ → LinkLayerRegisterTable) (command : Command) (c : Chip) {c' : Chip}
        {status : Option ℤ} {value : ℤ}
      → dpu_ioctl table command c ≡ done (returned c' status value)
      → P c
      → P c'
  unfolding After
  dpu_ioctl-IsStable s table command c e h = subst After e (dpu_ioctl-After s table command c h)
