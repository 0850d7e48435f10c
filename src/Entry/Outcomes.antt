-- ===== src/Entry/Outcomes.antt =====
-- Which commands of `DPU_ioctl` return, wait or fault.
use dspc8681_linux_driver.Base.{
  ℕ, zero, suc, ◌<◌, ◌≡◌, ◌⊎◌, ◌==◌, ◌∙◌, Bool-cases, ◌>>=◌, inl, inr, refl, arith, ℤ, pos, negsuc,
  Option, none, some, Run, done, fault, or_fault,
}
use dspc8681_linux_driver.LinkLayer.{
  LinkLayerRegisterTable, LinklayerIoType, io_reserver, io_write_reset, io_write_qreset,
  io_write_fin, io_write_qfin, io_read_reset, io_read_qreset, io_read_fin, io_read_qfin,
  link_layer_wait_buffer_ready,
}
use dspc8681_linux_driver.LinkLayer.Handshake.{
  IsWait, link_layer_wait_buffer_ready-Reports, link_layer_wait_buffer_ready_null,
}
use dspc8681_linux_driver.Entry.{
  Chip, Command, waitbufferready, changebufferstatus, interrupt, waitdpm, waitdpmstart,
  write_timeout, read_timeout, changereg, changoverreg, other, Outcome, returned, blocked, down,
  change_status, dpu_ioctl,
}

-- A wait for a type that does not wait, with a time above 0.
abbrev pub IsNullWait : LinklayerIoType → ℕ → Type 0
IsNullWait wait_type pend_time = (¬ IsWait wait_type) × (0 < pend_time)

-- The commands that read through a null pointer, or where nothing can be read.
abbrev pub ReadsNull : Command → Type 0
ReadsNull (waitbufferready none) = Unit
ReadsNull (waitbufferready (some (wait_type, pend_time))) = IsNullWait wait_type pend_time
ReadsNull (waitdpmstart none) = Unit
ReadsNull (waitdpmstart (some (wait_type, pend_time))) = IsNullWait wait_type pend_time
ReadsNull (changebufferstatus flag) = flag ≡ none
ReadsNull interrupt = ⊥
ReadsNull waitdpm = ⊥
ReadsNull write_timeout = ⊥
ReadsNull read_timeout = ⊥
ReadsNull (changereg flag) = flag ≡ none
ReadsNull (changoverreg flag) = flag ≡ none
ReadsNull other = ⊥

-- The commands that take a semaphore that is 0.
abbrev pub TakesNone : Command → Chip → Type 0
TakesNone waitdpm c = c.dsp_dpm_over_semaphore ≡ 0
TakesNone write_timeout c = c.write_semaphore ≡ 0
TakesNone read_timeout c = c.read_semaphore ≡ 0
TakesNone (waitbufferready param) c = ⊥
TakesNone (waitdpmstart param) c = ⊥
TakesNone (changebufferstatus flag) c = ⊥
TakesNone interrupt c = ⊥
TakesNone (changereg flag) c = ⊥
TakesNone (changoverreg flag) c = ⊥
TakesNone other c = ⊥

-- How a call ends: `null` and `taken` say which of the three.
abbrev pub Ended : Run Outcome → Type 0 → Type 0 → Type 0
Ended r null taken =
    (null × ¬ taken × (r ≡ fault))
    ⊎ ((¬ null × taken × (r ≡ done blocked))
        ⊎ (¬ null
            × ¬ taken
            × ((c : Chip) × (status : Option ℤ) × (r ≡ done (returned c status (pos 0))))))

IsWait-cases : (t : LinklayerIoType) → IsWait t ⊎ (¬ IsWait t)
IsWait-cases io_write_qreset = inl tt
IsWait-cases io_write_qfin = inl tt
IsWait-cases io_read_qreset = inl tt
IsWait-cases io_read_qfin = inl tt
IsWait-cases io_reserver = inr λ h. h
IsWait-cases io_write_reset = inr λ h. h
IsWait-cases io_write_fin = inr λ h. h
IsWait-cases io_read_reset = inr λ h. h
IsWait-cases io_read_fin = inr λ h. h

module _ (table : ℕ → LinkLayerRegisterTable) where
  wait_cases :
      (t : LinklayerIoType) (n : ℕ)
      → (IsNullWait t n × (link_layer_wait_buffer_ready table t n ≡ fault))
        ⊎ ((¬ IsNullWait t n) × ((r : ℤ) × (link_layer_wait_buffer_ready table t n ≡ done r)))
  wait_cases t n = elim (IsWait-cases t) [
    | inl waits ↦
        let (r, e, _) = link_layer_wait_buffer_ready-Reports table t n waits in
        inr (λ null. null.0 waits, (r, e))
    | inr not_waits ↦ elim (Bool-cases (n == 0)) [
      | inl at_0 ↦ inr (
        λ null. ground (arith, null.1),
        (negsuc 0, link_layer_wait_buffer_ready_null table t n not_waits ∙ rw at_0 refl),
      )
      | inr above ↦ inl (
        (not_waits, ground arith),
        link_layer_wait_buffer_ready_null table t n not_waits ∙ rw above refl,
      )
    ]
  ]

  -- A call that waits for the register table.
  wait-Ended :
      (t : LinklayerIoType) (n : ℕ) (c : Chip) (status : ℤ → Option ℤ)
      → Ended
          (link_layer_wait_buffer_ready table t n >>= λ r. done (returned c (status r) (pos 0)))
          (IsNullWait t n)
          ⊥
  wait-Ended t n c status = elim (wait_cases t n) [
    | inl (null, e) ↦ inl (null, (λ h. h), rw e refl)
    | inr (not_null, (r, e)) ↦ inr (inr (not_null, (λ h. h), (c, status r, rw e refl)))
  ]

  -- A call that takes a semaphore.
  down-Ended :
      (n : ℕ) (taken : ℕ → Chip)
      → Ended
          (elim (down n) [ none ↦ done blocked | some m ↦ done (returned (taken m) none (pos 0)) ])
          ⊥
          (n ≡ 0)
  unfolding down
  down-Ended zero taken = inr (inl ((λ h. h), refl, refl))
  down-Ended (suc n) taken =
      inr (inr ((λ h. h), (λ e. absurd (omega (arith, e))), (taken n, none, refl)))

  returned-Ended : (c : Chip) → Ended (done (returned c none (pos 0))) ⊥ ⊥
  returned-Ended c = inr (inr ((λ h. h), (λ h. h), (c, none, refl)))

  unread-Ended : Ended fault Unit ⊥
  unread-Ended = inl (tt, (λ h. h), refl)

  -- A call that changes the buffer status.
  change-Ended :
      (flag : Option LinklayerIoType) (c : Chip)
      → Ended
          (or_fault flag >>= λ t. done (returned (change_status t c) none (pos 0)))
          (flag ≡ none)
          ⊥
  change-Ended none c = inl (refl, (λ h. h), refl)
  change-Ended (some t) c = inr (inr ((λ e. cc), (λ h. h), (change_status t c, none, refl)))

  -- Every command ends in one of three ways. It reads through a null pointer, or where nothing can be
  -- read, exactly when it is one of the five commands that read their argument and the argument
  -- points to no readable memory, or it waits for a type that does not wait, with a time above 0; it
  -- waits for ever exactly when it takes a semaphore that is 0; in all other cases, the numbers that
  -- are no command among them, it returns 0.
  pub dpu_ioctl-Ended :
      (command : Command) (c : Chip)
      → Ended (dpu_ioctl table command c) (ReadsNull command) (TakesNone command c)
  unfolding dpu_ioctl
  dpu_ioctl-Ended (waitbufferready none) c = unread-Ended
  dpu_ioctl-Ended (waitbufferready (some (t, n))) c = wait-Ended t n c some
  dpu_ioctl-Ended (waitdpmstart none) c = unread-Ended
  dpu_ioctl-Ended (waitdpmstart (some (t, n))) c = wait-Ended t n c (λ _. none)
  dpu_ioctl-Ended waitdpm c =
      down-Ended c.dsp_dpm_over_semaphore (λ n. record c { dsp_dpm_over_semaphore = n })
  dpu_ioctl-Ended write_timeout c =
      down-Ended c.write_semaphore (λ n. record c { write_semaphore = n })
  dpu_ioctl-Ended read_timeout c =
      down-Ended c.read_semaphore (λ n. record c { read_semaphore = n })
  dpu_ioctl-Ended (changebufferstatus flag) c = change-Ended flag c
  dpu_ioctl-Ended interrupt c = returned-Ended _
  dpu_ioctl-Ended (changereg flag) c = change-Ended flag c
  dpu_ioctl-Ended (changoverreg flag) c = change-Ended flag c
  dpu_ioctl-Ended other c = returned-Ended _
