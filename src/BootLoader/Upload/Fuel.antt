-- ===== src/BootLoader/Upload/Fuel.antt =====
-- `uploadProgram` terminates on every image: each section takes eight bytes or more of it.
use dspc8681_linux_driver.Base.{
  ℕ, zero, suc, ◌+◌, ◌*◌, ◌/◌, ◌-◌, ◌≤◌, ◌<◌, ◌≡◌, ◌≢◌, refl, pos, arith, ◌==◌, inl, inr,
  Bool-cases, Option-cases, List, [], ◌∷◌, length, length-drop, spent, Ends, ends, faults, Ends->>=,
  Ends-weaken, Ends-ne-spent, u32,
}
use native.Mathlib.Decide.{dec_lt}
use dspc8681_linux_driver.Common.{byte_to_32bits}
use dspc8681_linux_driver.Common.Bytes.{byte_to_32bits-short}
use dspc8681_linux_driver.BootLoader.Memory.{DspMemory, magic_addr, in_ll2}
use dspc8681_linux_driver.BootLoader.Memory.Overlay.Returns.{
  write_dsp_memory-Ends, write_dsp_memory-length,
}
use dspc8681_linux_driver.BootLoader.Memory.Placement.{magic_index, locate_magic}
use dspc8681_linux_driver.BootLoader.Upload.{
  Progress, read_word, read_words, transfer_blocks, transfer_section, upload_sections,
  upload_program, adjust_size, new_core_num,
}

read_word-Ends : (p : List ℕ) → Ends (λ r. length r.1 + 4 ≤ length p) (read_word p)
unfolding read_word
read_word-Ends p = elim (dec_lt (length p) 4) [
  | yes short ↦ rw (byte_to_32bits-short p short) faults
  | no long ↦ elim (Option-cases (byte_to_32bits p)) [
    | inl e ↦ rw e faults
    | inr (w, e) ↦ rw e (ends (omega (arith, length-drop 4 p)))
  ]
]

read_words-Ends : (n : ℕ) (p : List ℕ) → Ends (λ r. length r.1 ≤ length p) (read_words n p)
unfolding read_words
read_words-Ends zero p = ends (omega arith)
read_words-Ends (suc n) p =
    Ends->>= _ (read_word-Ends p)
      λ r h. Ends->>= _ (read_words-Ends n r.1) λ q k. ends (omega arith)

transfer_blocks-Ends :
    (core_num n : ℕ) (s : Progress)
    → Ends (λ t. length t.image ≤ length s.image) (transfer_blocks core_num n s)
unfolding transfer_blocks
transfer_blocks-Ends core_num zero s = ends (omega arith)
transfer_blocks-Ends core_num (suc n) s = Ends->>= _ (read_words-Ends 64 s.image) λ r h.
    Ends->>= _ (write_dsp_memory-Ends s.memory core_num s.sec_start_addr r.0 256) λ w _.
      Ends-weaken (λ t k. omega arith)
        (transfer_blocks-Ends core_num n
          (record { memory = w.0; sec_start_addr = u32 (s.sec_start_addr + 256); image = r.1 }))

transfer_section-Ends :
    (core_num sec_size : ℕ) (m : DspMemory) (p : List ℕ)
    → Ends (λ r. length r.2 + 8 ≤ length p) (transfer_section core_num sec_size m p)
unfolding transfer_section
transfer_section-Ends core_num sec_size m p = Ends->>= _ (read_word-Ends p) λ r h.
    Ends->>= _
      (transfer_blocks-Ends (new_core_num core_num r.0) (sec_size / 256)
        (record { memory = m; sec_start_addr = r.0; image = r.1 }))
      λ s k. Ends->>= _ (read_words-Ends ((sec_size - sec_size / 256 * 256) / 4) s.image) λ q l.
        Ends->>= _
          (write_dsp_memory-Ends s.memory (new_core_num core_num r.0) s.sec_start_addr q.0
            (sec_size - sec_size / 256 * 256))
          λ w _. Ends->>= _ (read_word-Ends q.1) λ t o. ends (omega arith)

upload_sections-Ends :
    (fuel core_num sec_size : ℕ) (m : DspMemory) (p : List ℕ)
    → length p < fuel * 8
    → Ends (λ _. Unit {0}) (upload_sections fuel core_num sec_size m p)
unfolding upload_sections
upload_sections-Ends zero core_num sec_size m p h = absurd (omega arith)
upload_sections-Ends (suc fuel) core_num sec_size m p h = elim (Bool-cases (sec_size == 0)) [
  | inl last ↦ rw (last, upload_sections) (ends tt)
  | inr more ↦
      rw (more, upload_sections)
        (Ends->>= _ (transfer_section-Ends core_num (adjust_size sec_size) m p)
          λ r k. upload_sections-Ends fuel core_num r.1 r.0 r.2 (omega arith))
]

-- A call that returns gives 0: `MAGIC_ADDR` has a place, so the last store is never turned down.
pub upload_program-Ends :
    (fuel : ℕ) (m : DspMemory) (image : List ℕ) (core_num : ℕ)
    → length image < fuel * 8
    → Ends (λ r. r.1 ≡ pos 0) (upload_program fuel m image core_num)
unfolding upload_program
upload_program-Ends fuel m image core_num h = Ends->>= _ (read_word-Ends image) λ r h1.
    Ends->>= _ (read_word-Ends r.1) λ q h2.
      Ends->>= _ (upload_sections-Ends fuel core_num q.0 m q.1 (omega arith)) λ m' _.
        Ends->>= _
          (write_dsp_memory-length m' 0 magic_addr magic_index in_ll2 (r.0 ∷ []) 4 locate_magic
            (ground arith))
          λ w e. ends (rw e refl)

-- Termination: on every image, well-formed or not, `uploadProgram` returns or reads or writes
-- outside an array; a round of its loop for every eight bytes of the image is enough.
pub upload_program-terminates :
    (fuel : ℕ) (m : DspMemory) (image : List ℕ) (core_num : ℕ)
    → length image < fuel * 8
    → upload_program fuel m image core_num ≢ spent
upload_program-terminates fuel m image core_num h =
    Ends-ne-spent {P = λ r. r.1 ≡ pos 0} (upload_program-Ends fuel m image core_num h)
