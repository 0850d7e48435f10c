-- ===== src/BootLoader/Boot/Codes.antt =====
-- What `bootLoader` may return.
use dspc8681_linux_driver.Base.{
  ℕ, ◌*◌, ◌<◌, inl, inr, Bool-cases, Bool, leb, ltb, true, false, ℤ, pos, negsuc, List, [], ◌∷◌,
  length, Run, Ends, ends, faults, Ends->>=,
}
use dspc8681_linux_driver.BootLoader.Upload.Fuel.{upload_program-Ends}
use dspc8681_linux_driver.BootLoader.Boot.{
  Images, pushed, copied, Dsp, Host, emit, is_0, memcpy, wait_push_code, finish_push,
  write_out_buffer, push_core0, push_cores, wait_cores, boot_cores, boot_loader, pc_pushcode_finish,
  dsp_getcode_finish,
}

-- The return codes 0, -2 and -4.
pub data IsBootCode : ℤ → Type 0 where
  booted : IsBootCode (pos 0)
  receive_code_fail : IsBootCode (negsuc 1)
  cores_not_booted : IsBootCode (negsuc 3)

abbrev HasCode : Host × ℤ → Type 0
HasCode r = IsBootCode r.1

pub Ends-branch :
    {P : Host × ℤ → Type 0} (b : Bool) {x y : Run (Host × ℤ)}
    → Ends P x
    → Ends P y
    → Ends P (elim b [ true ↦ x | false ↦ y ])
Ends-branch true p q = p
Ends-branch false p q = q

memcpy-Ends : (src : List ℕ) (n : ℕ) → Ends (λ _. Unit {0}) (memcpy src n)
memcpy-Ends src n = elim (Bool-cases (leb n (length src))) [
  | inl e ↦ rw e (ends tt)
  | inr e ↦ rw e faults
]

finish_push-HasCode : (dsp : Dsp) (h : Host) → HasCode (finish_push dsp h)
unfolding finish_push
finish_push-HasCode dsp h =
    elim (Bool-cases
      (is_0 (wait_push_code dsp dsp_getcode_finish (emit (pushed pc_pushcode_finish) h)))) [
        | inl e ↦ rw (finish_push, e) booted
        | inr e ↦ rw (finish_push, e) receive_code_fail
      ]

write_out_buffer-Ends :
    (dsp : Dsp) (zone : ℕ) (code : List ℕ) (n : ℕ) (h : Host)
    → Ends HasCode (write_out_buffer dsp zone code n h)
unfolding write_out_buffer
write_out_buffer-Ends dsp zone code n h =
    Ends->>= _ (memcpy-Ends code n)
      λ bytes _. ends (finish_push-HasCode dsp (emit (copied zone bytes) h))

push_core0-Ends :
    (dsp : Dsp) (zone : ℕ) (code : List ℕ) (h : Host) → Ends HasCode (push_core0 dsp zone code h)
unfolding push_core0
push_core0-Ends dsp zone code h =
    Ends-branch _ (write_out_buffer-Ends dsp zone code _ _) (ends receive_code_fail)

push_cores-Ends :
    (dsp : Dsp) (zone : ℕ) (codes : List (List ℕ)) (h : Host)
    → Ends HasCode (push_cores dsp zone codes h)
unfolding push_cores
push_cores-Ends dsp zone [] h = ends booted
push_cores-Ends dsp zone (code ∷ codes) h =
    Ends->>= _ (write_out_buffer-Ends dsp zone code (length code) _)
      λ r k. Ends-branch (is_0 r.1) (push_cores-Ends dsp zone codes r.0) (ends k)

wait_cores-Ends : (dsp : Dsp) (h : Host) → Ends HasCode (wait_cores dsp h)
unfolding wait_cores
wait_cores-Ends dsp h = Ends-branch _ (ends booted) (ends cores_not_booted)

boot_cores-Ends :
    (dsp : Dsp) (zone : ℕ) (images : Images) (h : Host)
    → Ends HasCode (boot_cores dsp zone images h)
unfolding boot_cores
boot_cores-Ends dsp zone images h = Ends->>= _ (push_core0-Ends dsp zone images.core0 h) λ r k.
    Ends-branch (is_0 r.1)
      (Ends->>= _ (push_cores-Ends dsp zone (images.core1 ∷ images.core2 ∷ []) r.0)
        λ q l. Ends-branch (is_0 q.1) (wait_cores-Ends dsp q.0) (ends l))
      (ends k)

-- Return codes: with fuel for every eight bytes of the first image, on every image, of the right
-- form or not, and with every DSP, `bootLoader` returns 0, -2 or -4, or reads or writes outside an
-- array.
pub boot_loader-IsBootCode :
    (fuel : ℕ) (dsp : Dsp) (images : Images) (dma_vir_addr dma_phy_addr processor_index : ℕ)
    (h : Host)
    → length images.dsp_init < fuel * 8
    → Ends
        (λ r. IsBootCode r.1)
        (boot_loader fuel dsp images dma_vir_addr dma_phy_addr processor_index h)
unfolding boot_loader
boot_loader-IsBootCode fuel dsp images dma_vir_addr dma_phy_addr processor_index h enough =
    elim (Bool-cases (ltb processor_index (length h.register_table))) [
      | inl inside ↦ rw inside (
          Ends->>= _ (upload_program-Ends fuel h.memory images.dsp_init 0 enough)
            λ r e. rw e (boot_cores-Ends dsp _ images _))
      | inr outside ↦ rw outside faults
    ]
