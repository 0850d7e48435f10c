-- ===== src/BootLoader/Upload/Correct.antt =====
-- `uploadProgram` against its specification: every section of a well-formed boot table ends up at
-- its place, and the entry address at `MAGIC_ADDR`.
use dspc8681_linux_driver.Base.{
  ℕ, zero, suc, ◌+◌, ◌≤◌, ◌<◌, ◌≡◌, refl, ◌∙◌, arith, ◌==◌, false, IsWord, pos, List, [], ◌∷◌,
  length, All, Option, none, some, done,
}
use dspc8681_linux_driver.BootLoader.Memory.{DspMemory, Region, in_ll2, window, magic_addr}
use dspc8681_linux_driver.BootLoader.Memory.Overlay.{
  overlay_memory, size-overlay_memory, write_dsp_memory_lem,
}
use dspc8681_linux_driver.BootLoader.Memory.Placement.{
  placement, limit, locate-new_core_num, magic_index, locate_magic,
}
use dspc8681_linux_driver.BootLoader.Upload.{new_core_num, upload_sections, upload_program}
use dspc8681_linux_driver.BootLoader.Upload.Table.{
  Section, IsSection, first_size, sections_bytes, table_bytes, read_word_lem, adjust_size_lem,
}
use dspc8681_linux_driver.BootLoader.Upload.Transfer.{HasRoom, transfer_section_lem}

-- The specification: a section's words over the memory at its place, one section after another.
unfoldable pub put_words : DspMemory → Option (Region × ℕ) → List ℕ → DspMemory
put_words m none ws = m
put_words m (some (region, index)) ws = overlay_memory m region index ws

unfoldable pub load : DspMemory → List Section → DspMemory
load m [] = m
load m (s ∷ ss) = load (put_words m (placement s.address) s.words) ss

-- The host maps no more words of a region than have an address.
abbrev pub IsMapped : DspMemory → Type 0
IsMapped m = (region : Region) → (window m region).size ≤ limit region

-- The section lies in a mapped window.
pub record Fits (m : DspMemory) (s : Section) : Type 0 where
  pub region : Region
  pub index : ℕ
  pub placed : placement s.address ≡ some (region, index)
  pub mapped : index + length s.words ≤ (window m region).size

module _ {m : DspMemory} (s : Section) (f : Fits m s) where
  abbrev stored : DspMemory
  stored = overlay_memory m f.region f.index s.words

  Fits-stored : {t : Section} → Fits m t → Fits stored t
  Fits-stored t = record {
    region = t.region;
    index = t.index;
    placed = t.placed;
    mapped = rw (size-overlay_memory m f.region f.index s.words t.region) t.mapped;
  }

  All-Fits-stored : (ts : List Section) → All (Fits m) ts → All (Fits stored) ts
  All-Fits-stored [] h = tt
  All-Fits-stored (t ∷ ts) (h, hs) = (Fits-stored h, All-Fits-stored ts hs)

  IsMapped-stored : IsMapped m → IsMapped stored
  IsMapped-stored h q = rw (size-overlay_memory m f.region f.index s.words q) (h q)

  section-HasRoom :
      (core_num : ℕ)
      → IsSection s
      → IsMapped m
      → HasRoom (new_core_num core_num s.address) m s.address f.region f.index s.words
  section-HasRoom core_num v h = record {
    address_word = v.address_word;
    words_IsWord = v.words_IsWord;
    located = λ _. locate-new_core_num core_num s.address v.address_word ∙ f.placed;
    mapped = f.mapped;
    addressed = h f.region;
  }

first_size-IsWord : (ss : List Section) → All IsSection ss → IsWord (first_size ss)
first_size-IsWord [] h = omega arith
first_size-IsWord (s ∷ ss) (v, _) = omega (arith, v.small)

-- The loop of `uploadProgram`, from the size of the first section on.
upload_sections-load :
    (fuel core_num : ℕ) (m : DspMemory) (ss : List Section) (rest : List ℕ)
    → length ss < fuel
    → IsMapped m
    → All IsSection ss
    → All (Fits m) ss
    → upload_sections fuel core_num (first_size ss) m (sections_bytes ss rest) ≡ done (load m ss)
unfolding upload_sections load put_words sections_bytes
upload_sections-load zero core_num m ss rest enough h vs fs = elim enough [ ]
upload_sections-load (suc fuel) core_num m [] rest enough h vs fs = refl
upload_sections-load (suc fuel) core_num m (s ∷ ss) rest enough h (v, vs) (f, fs) =
    let nonzero : (s.size == 0) ≡ false = ground (arith, v.some_bytes) in
    rw
      (
        nonzero,
        upload_sections,
        adjust_size_lem s v,
        transfer_section_lem core_num (section-HasRoom s f core_num v h) (first_size ss)
            (sections_bytes ss rest) (first_size-IsWord ss vs),
        f.placed,
      )
      (upload_sections-load fuel core_num (stored s f) ss rest (omega arith) (IsMapped-stored s f h)
        vs (All-Fits-stored s f ss fs))

size-load :
    (m : DspMemory) (ss : List Section) (region : Region)
    → All (Fits m) ss
    → (window (load m ss) region).size ≡ (window m region).size
unfolding load put_words
size-load m [] region fs = refl
size-load m (s ∷ ss) region (f, fs) = rw f.placed (
    size-load (stored s f) ss region (All-Fits-stored s f ss fs)
    ∙ size-overlay_memory m f.region f.index s.words region)

-- Refinement: on a boot table whose sections lie in mapped windows, `uploadProgram` returns 0, with
-- each section's words at its place, later sections over earlier ones, the entry address at
-- `MAGIC_ADDR` and no other word changed, for every core number. Fuel above the number of
-- sections is enough.
pub upload_program-load :
    (fuel core_num entry : ℕ) (m : DspMemory) (ss : List Section) (rest : List ℕ)
    → length ss < fuel
    → IsWord entry
    → IsMapped m
    → magic_index < m.ll2.size
    → All IsSection ss
    → All (Fits m) ss
    → upload_program fuel m (table_bytes entry ss rest) core_num
      ≡ done (overlay_memory (load m ss) in_ll2 magic_index (entry ∷ []), pos 0)
unfolding upload_program table_bytes
upload_program-load fuel core_num entry m ss rest enough he h hm vs fs = rw (
  read_word_lem entry _ he,
  read_word_lem (first_size ss) (sections_bytes ss rest) (first_size-IsWord ss vs),
  upload_sections-load fuel core_num m ss rest enough h vs fs,
  write_dsp_memory_lem (load m ss) 0 magic_addr magic_index in_ll2 (entry ∷ []) 4 locate_magic refl
      (omega (arith, size-load m ss in_ll2 fs)),
)
