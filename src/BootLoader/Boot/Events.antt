-- ===== src/BootLoader/Boot/Events.antt =====
-- What can be said of everything that `bootLoader` does, from what can be said of each event.
use dspc8681_linux_driver.Base.{
  ℕ, ◌+◌, ◌*◌, ◌/◌, ◌≤◌, ◌<◌, inl, inr, arith, Bool-cases, leb, ltb, ℤ, List, [], ◌∷◌, length,
  length-take, All, Ends, ends, faults, Ends->>=,
}
use dspc8681_linux_driver.BootLoader.Upload.Fuel.{upload_program-Ends}
use dspc8681_linux_driver.BootLoader.Outbound.{dsp_memory_map}
use dspc8681_linux_driver.BootLoader.Boot.{
  Images, Event, mapped, pushed, copied, polled, Dsp, Host, emit, is_0, memcpy, wait_push_code,
  finish_push, write_out_buffer, push_core0, push_cores, wait_cores, boot_cores, align_phy_addr,
  addr_map, put_dsp_img_zone, boot_loader, pc_pushcode_finish, dsp_getcode_finish,
}
use dspc8681_linux_driver.BootLoader.Boot.Codes.{Ends-branch}

-- `P` is kept by a push, a poll, and a copy to `zone` of bytes that have `Q`.
pub record IsKept (P : List Event → Type 0) (Q : List ℕ → Type 0) (zone : ℕ) : Type 0 where
  pub pushes : (v : ℕ) (es : List Event) → P es → P (pushed v ∷ es)
  pub polls : (es : List Event) → P es → P (polled ∷ es)
  pub copies : (bytes : List ℕ) (es : List Event) → Q bytes → P es → P (copied zone bytes ∷ es)

-- Whatever part of `code` is copied, up to whole words, has `Q`.
abbrev pub Copies : (List ℕ → Type 0) → List ℕ → Type 0
Copies Q code = (bytes : List ℕ) → length bytes ≤ (length code + 3) / 4 * 4 → Q bytes

memcpy-le : (src : List ℕ) (n : ℕ) → Ends (λ bytes. length bytes ≤ n) (memcpy src n)
memcpy-le src n = elim (Bool-cases (leb n (length src))) [
  | inl e ↦ rw e (ends (omega (arith, length-take n src)))
  | inr e ↦ rw e faults
]

module _ (P : List Event → Type 0) (Q : List ℕ → Type 0) (zone : ℕ) (kept : IsKept P Q zone) where
  abbrev After : Host × ℤ → Type 0
  After r = P r.0.events

  finish_push-After : (dsp : Dsp) (h : Host) → P h.events → After (finish_push dsp h)
  unfolding finish_push
  finish_push-After dsp h p =
      let done_pushing = kept.polls _ (kept.pushes _ _ p) in
      elim (Bool-cases
        (is_0 (wait_push_code dsp dsp_getcode_finish (emit (pushed pc_pushcode_finish) h)))) [
          | inl e ↦ rw (finish_push, e) (kept.pushes _ _ done_pushing)
          | inr e ↦ rw (finish_push, e) done_pushing
        ]

  write_out_buffer-After :
      (dsp : Dsp) (code : List ℕ) (n : ℕ) (h : Host)
      → n ≤ (length code + 3) / 4 * 4
      → Copies Q code
      → P h.events
      → Ends After (write_out_buffer dsp zone code n h)
  unfolding write_out_buffer
  write_out_buffer-After dsp code n h whole small p = Ends->>= _ (memcpy-le code n) λ bytes short.
      ends (
        finish_push-After dsp (emit (copied zone bytes) h)
          (kept.copies bytes h.events (small bytes (omega arith)) p))

  push_core0-After :
      (dsp : Dsp) (code : List ℕ) (h : Host)
      → Copies Q code
      → P h.events
      → Ends After (push_core0 dsp zone code h)
  unfolding push_core0
  push_core0-After dsp code h small p =
      let reset = kept.polls _ (kept.pushes _ _ p) in
      Ends-branch _ (write_out_buffer-After dsp code _ _ (omega arith) small reset) (ends reset)

  push_cores-After :
      (dsp : Dsp) (codes : List (List ℕ)) (h : Host)
      → All (Copies Q) codes
      → P h.events
      → Ends After (push_cores dsp zone codes h)
  unfolding push_cores
  push_cores-After dsp [] h small p = ends p
  push_cores-After dsp (code ∷ codes) h (first, rest) p =
      Ends->>= _
        (write_out_buffer-After dsp code (length code) _ (omega arith) first
          (kept.polls _ (kept.pushes _ _ p)))
        λ r q. Ends-branch (is_0 r.1) (push_cores-After dsp codes r.0 rest q) (ends q)

  wait_cores-After : (dsp : Dsp) (h : Host) → P h.events → Ends After (wait_cores dsp h)
  unfolding wait_cores
  wait_cores-After dsp h p = Ends-branch _ (ends (kept.polls _ p)) (ends (kept.polls _ p))

  boot_cores-After :
      (dsp : Dsp) (images : Images) (h : Host)
      → All (Copies Q) (images.core0 ∷ images.core1 ∷ images.core2 ∷ [])
      → P h.events
      → Ends After (boot_cores dsp zone images h)
  unfolding boot_cores
  boot_cores-After dsp images h (small0, rest) p =
      Ends->>= _ (push_core0-After dsp images.core0 h small0 p) λ r p'.
        Ends-branch (is_0 r.1)
          (Ends->>= _ (push_cores-After dsp (images.core1 ∷ images.core2 ∷ []) r.0 rest p')
            λ q p''. Ends-branch (is_0 q.1) (wait_cores-After dsp q.0 p'') (ends p''))
          (ends p')

-- From the window on: `P` holds of all that `bootLoader` has done when it returns.
pub boot_loader-After :
    (P : List Event → Type 0) (Q : List ℕ → Type 0) (fuel : ℕ) (dsp : Dsp) (images : Images)
    (dma_vir_addr dma_phy_addr processor_index : ℕ) (h : Host)
    → length images.dsp_init < fuel * 8
    → IsKept P Q (put_dsp_img_zone (addr_map dma_vir_addr dma_phy_addr))
    → All (Copies Q) (images.core0 ∷ images.core1 ∷ images.core2 ∷ [])
    → P (mapped (dsp_memory_map (align_phy_addr dma_phy_addr) 0x400000).0 ∷ h.events)
    → Ends
        (λ r. P r.0.events)
        (boot_loader fuel dsp images dma_vir_addr dma_phy_addr processor_index h)
unfolding boot_loader
boot_loader-After P Q fuel dsp images dma_vir_addr dma_phy_addr processor_index h enough kept small
      p =
    elim (Bool-cases (ltb processor_index (length h.register_table))) [
      | inl within ↦ rw within (
          Ends->>= _ (upload_program-Ends fuel h.memory images.dsp_init 0 enough)
            λ r e. rw e (boot_cores-After P Q _ kept dsp images _ small (kept.polls _ p)))
      | inr outside ↦ rw outside faults
    ]
