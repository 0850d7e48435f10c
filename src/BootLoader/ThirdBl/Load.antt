-- ===== src/BootLoader/ThirdBl/Load.antt =====
-- What `uploadProgram` makes of `_thirdBLCode_U0`.
use dspc8681_linux_driver.Base.{
  ℕ, ◌+◌, ◌≤◌, ◌<◌, ◌≡◌, ◌≢◌, ◌⊎◌, inl, inr, refl, sym, ap, ◌∙◌, arith, pos, List, [], ◌∷◌, ◌++◌,
  length, get_elem?, get_elem?-lt, All, Option, some, done,
}
use dspc8681_linux_driver.BootLoader.Memory.{DspMemory, Region, in_ll2}
use dspc8681_linux_driver.BootLoader.Memory.Overlay.Lookup.{word_of, IsOutside}
use dspc8681_linux_driver.BootLoader.Memory.Placement.{placement, magic_index}
use dspc8681_linux_driver.BootLoader.Upload.{upload_program}
use dspc8681_linux_driver.BootLoader.Upload.Table.{Section}
use dspc8681_linux_driver.BootLoader.Upload.Correct.{IsMapped}
use dspc8681_linux_driver.BootLoader.Upload.Contents.{
  Misses, IsNotMagic, Contents, upload_program-Contents,
}
use dspc8681_linux_driver.BootLoader.ThirdBl.{third_bl_code_u0}
use dspc8681_linux_driver.BootLoader.ThirdBl.Table.{
  boot_section, text_section, strings_section, tables_section, third_bl_sections,
  third_bl_code_u0-table,
}
use dspc8681_linux_driver.BootLoader.ThirdBl.Sections.{
  length-boot_section, length-text_section, length-strings_section, length-tables_section,
  third_bl_sections-IsSection, third_bl_sections-Fits, boot_section-placement,
  text_section-placement, strings_section-placement, tables_section-placement,
}

-- A section of L2 memory misses a word that is in another memory, before it or behind it.
section-Misses :
    (q : Region) (j : ℕ) (s : Section) (start n : ℕ)
    → placement s.address ≡ some (in_ll2, start)
    → length s.words ≡ n
    → (q ≢ in_ll2) ⊎ IsOutside j start n
    → Misses q j s
section-Misses q j s start n placed e apart region index placed' =
    let same_place : ◌≡◌ {A = Option (Region × ℕ)} (some (region, index)) (some (in_ll2, start)) =
      sym placed' ∙ placed in
    let same_region : region ≡ in_ll2 = cc in
    let same_index : index ≡ start = cc in rw (same_region, same_index, e) apart

-- Words of L2 memory from `start` on.
abbrev pub HasWords : DspMemory → ℕ → List ℕ → Type 0
HasWords m start ws = (i w : ℕ) → get_elem? ws i ≡ some w → word_of m in_ll2 (start + i) ≡ w

-- What the memory `m'` has after the upload over `m`: the entry address, the four sections, and in
-- the other memories and below the sections what it had.
pub record Loaded (m m' : DspMemory) : Type 0 where
  pub entry_stored : word_of m' in_ll2 magic_index ≡ 0x00860000
  pub boot_stored : HasWords m' 0x18000 boot_section.words
  pub text_stored : HasWords m' 0x18080 text_section.words
  pub strings_stored : HasWords m' 0x1C0DB strings_section.words
  pub tables_stored : HasWords m' 0x1BFEE tables_section.words
  pub others_kept :
      (q : Region) (j : ℕ) → (q ≢ in_ll2) ⊎ (j < 0x18000) → word_of m' q j ≡ word_of m q j

-- The sections miss a word that none of them is given.
boot-Misses : (q : Region) (j : ℕ) → (q ≢ in_ll2) ⊎ IsOutside j 0x18000 32 → Misses q j boot_section
boot-Misses q j =
    section-Misses q j boot_section 0x18000 32 boot_section-placement length-boot_section

text-Misses :
    (q : Region) (j : ℕ) → (q ≢ in_ll2) ⊎ IsOutside j 0x18080 10920 → Misses q j text_section
text-Misses q j =
    section-Misses q j text_section 0x18080 10920 text_section-placement length-text_section

strings-Misses :
    (q : Region) (j : ℕ) → (q ≢ in_ll2) ⊎ IsOutside j 0x1C0DB 64 → Misses q j strings_section
strings-Misses q j =
    section-Misses q j strings_section 0x1C0DB 64 strings_section-placement length-strings_section

tables-Misses :
    (q : Region) (j : ℕ) → (q ≢ in_ll2) ⊎ IsOutside j 0x1BFEE 149 → Misses q j tables_section
tables-Misses q j =
    section-Misses q j tables_section 0x1BFEE 149 tables_section-placement length-tables_section

sections-Misses :
    (q : Region) (j : ℕ) → (q ≢ in_ll2) ⊎ (j < 0x18000) → All (Misses q j) third_bl_sections
sections-Misses q j (inl other) = (
  boot-Misses q j (inl other),
  (
    text-Misses q j (inl other),
    (strings-Misses q j (inl other), (tables-Misses q j (inl other), tt)),
  ),
)
sections-Misses q j (inr below) = (
  boot-Misses q j (inr (inl below)),
  (
    text-Misses q j (inr (inl (omega arith))),
    (
      strings-Misses q j (inr (inl (omega arith))),
      (tables-Misses q j (inr (inl (omega arith))), tt),
    ),
  ),
)

-- The words of a section are those of the memory if the sections behind it miss them.
section-HasWords :
    {m m' : DspMemory}
    → Contents m m' 0x00860000 third_bl_sections
    → (xs ys : List Section) (s : Section) (start n : ℕ) → third_bl_sections ≡ xs ++ s ∷ ys
    → placement s.address ≡ some (in_ll2, start)
    → length s.words ≡ n
    → start + n ≤ magic_index
    → ((i : ℕ) → i < n → All (Misses in_ll2 (start + i)) ys)
    → HasWords m' start s.words
section-HasWords c xs ys s start n e placed whole fits clear i w word =
    let inside : i < n = omega (arith, get_elem?-lt s.words i w word, whole) in
    c.words_stored xs ys s in_ll2 start i w e placed word (clear i inside)
      (inr λ magic. absurd (omega arith))

elsewhere_IsNotMagic : (q : Region) (j : ℕ) → (q ≢ in_ll2) ⊎ (j < 0x18000) → IsNotMagic q j
elsewhere_IsNotMagic q j (inl other) = inl other
elsewhere_IsNotMagic q j (inr below) = inr (ground arith)

Contents-Loaded : (m m' : DspMemory) → Contents m m' 0x00860000 third_bl_sections → Loaded m m'
Contents-Loaded m m' c = record {
  entry_stored = c.entry_stored;
  boot_stored =
      section-HasWords c [] (text_section ∷ strings_section ∷ tables_section ∷ []) boot_section
        0x18000 32 refl boot_section-placement length-boot_section (omega arith)
        λ i inside. (
          text-Misses in_ll2 (0x18000 + i) (inr (inl (omega arith))),
          (
            strings-Misses in_ll2 (0x18000 + i) (inr (inl (omega arith))),
            (tables-Misses in_ll2 (0x18000 + i) (inr (inl (omega arith))), tt),
          ),
        );
  text_stored =
      section-HasWords c (boot_section ∷ []) (strings_section ∷ tables_section ∷ []) text_section
        0x18080 10920 refl text_section-placement length-text_section (omega arith)
        λ i inside. (
          strings-Misses in_ll2 (0x18080 + i) (inr (inl (omega arith))),
          (tables-Misses in_ll2 (0x18080 + i) (inr (inl (omega arith))), tt),
        );
  strings_stored =
      section-HasWords c (boot_section ∷ text_section ∷ []) (tables_section ∷ []) strings_section
        0x1C0DB 64 refl strings_section-placement length-strings_section (omega arith)
        λ i inside. (tables-Misses in_ll2 (0x1C0DB + i) (inr (inr (omega arith))), tt);
  tables_stored =
      section-HasWords c (boot_section ∷ text_section ∷ strings_section ∷ []) [] tables_section
        0x1BFEE 149 refl tables_section-placement length-tables_section (omega arith)
        λ i inside. tt;
  others_kept = λ q j elsewhere.
      c.others_kept q j (sections-Misses q j elsewhere) (elsewhere_IsNotMagic q j elsewhere);
}

-- The boot table of the build: with rounds for its four sections, on every chip whose L2 memory is
-- mapped over half a megabyte or more and whose windows are no larger than their ranges of
-- addresses, and for all core numbers, `uploadProgram` returns 0 with `_thirdBLCode_U0`. The entry
-- address 0x00860000 is at `MAGIC_ADDR`, the four sections are complete, and the shared memory,
-- DDR and the L2 memory below 0x00860000 are as before.
pub upload_program-third_bl_code_u0 :
    (fuel core_num : ℕ) (m : DspMemory)
    → 4 < fuel
    → IsMapped m
    → 0x20000 ≤ m.ll2.size
    → (m' : DspMemory) × (upload_program fuel m third_bl_code_u0 core_num ≡ done (m', pos 0))
      × Loaded m m'
upload_program-third_bl_code_u0 fuel core_num m enough mapped half =
    let (m', uploaded, contents) =
      upload_program-Contents fuel core_num 0x00860000 m third_bl_sections [] enough (omega arith)
        mapped (omega arith) third_bl_sections-IsSection (third_bl_sections-Fits m half) in
    (
      m',
      ap (λ p. upload_program fuel m p core_num) third_bl_code_u0-table ∙ uploaded,
      Contents-Loaded m m' contents,
    )
