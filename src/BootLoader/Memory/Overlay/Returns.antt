-- ===== src/BootLoader/Memory/Overlay/Returns.antt =====
-- A call of `writeDSPMemory` returns, or stores past the end of a window.
use dspc8681_linux_driver.Base.{
  ℕ, zero, suc, ◌+◌, ◌/◌, ◌≡◌, refl, arith, ltb, ◌==◌, inl, inr, Bool-cases, Option-cases, Ends,
  ends, faults, Ends->>=, List, get_elem?, false, ◌≢◌, some, done,
}
use dspc8681_linux_driver.BootLoader.Memory.{
  Window, DspMemory, Region, window, set_window, store, write_loop, locate, write_at,
  write_dsp_memory,
}
use dspc8681_linux_driver.BootLoader.Memory.Overlay.{stored}

write_loop-Ends :
    (left i ptr : ℕ) (buffer : List ℕ) (w : Window)
    → Ends (λ _. Unit {0}) (write_loop left i ptr buffer w)
unfolding write_loop store
write_loop-Ends zero i ptr buffer w = ends tt
write_loop-Ends (suc left) i ptr buffer w = elim (Option-cases (get_elem? buffer i)) [
  | inl e ↦ rw (e, write_loop) faults
  | inr (v, e) ↦ elim (Bool-cases (ltb ptr w.size)) [
    | inl inside ↦
        rw (e, write_loop, inside, store)
          (write_loop-Ends left (i + 1) (ptr + 1) buffer (stored w ptr v))
    | inr outside ↦ rw (e, write_loop, outside, store) faults
  ]
]

pub write_dsp_memory-Ends :
    (m : DspMemory) (core_num a : ℕ) (buffer : List ℕ) (n : ℕ)
    → Ends (λ _. Unit {0}) (write_dsp_memory m core_num a buffer n)
unfolding write_dsp_memory write_at
write_dsp_memory-Ends m core_num a buffer n = elim (Bool-cases (n == 0)) [
  | inl e ↦ rw e (ends tt)
  | inr e ↦ elim (Option-cases (locate core_num a)) [
    | inl lost ↦ rw (e, lost, write_at) (ends tt)
    | inr ((region, index), found) ↦
        rw (e, found, write_at)
          (Ends->>= (λ w. done (set_window m region w, n))
            (write_loop-Ends (n / 4) 0 index buffer (window m region)) (λ _ _. ends tt))
  ]
]

-- A call with a located address that returns gives the length.
pub write_dsp_memory-length :
    (m : DspMemory) (core_num a index : ℕ) (region : Region) (buffer : List ℕ) (n : ℕ)
    → locate core_num a ≡ some (region, index)
    → n ≢ 0
    → Ends (λ w. w.1 ≡ n) (write_dsp_memory m core_num a buffer n)
unfolding write_dsp_memory write_at
write_dsp_memory-length m core_num a index region buffer n located some_bytes =
    let nonzero : (n == 0) ≡ false = ground arith in
    rw (nonzero, located, write_at)
      (Ends->>= (λ w. done (set_window m region w, n))
        (write_loop-Ends (n / 4) 0 index buffer (window m region)) (λ _ _. ends refl))
