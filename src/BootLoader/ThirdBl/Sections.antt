-- ===== src/BootLoader/ThirdBl/Sections.antt =====
-- The four sections of `_thirdBLCode_U0` are well-formed, and where they are put.
use dspc8681_linux_driver.Base.{
  ℕ, ◌+◌, ◌/◌, ◌^◌, some, ◌<◌, ◌≤◌, ◌≡◌, refl, sym, ◌∙◌, arith, IsWord, length, length-append,
  length-drop, drop, All, All-drop, All-append_iff,
}
use dspc8681_linux_driver.BootLoader.Memory.{DspMemory, in_ll2}
use dspc8681_linux_driver.BootLoader.Memory.Placement.{placement}
use dspc8681_linux_driver.BootLoader.Upload.Table.{Section, IsSection}
use dspc8681_linux_driver.BootLoader.Upload.Correct.{Fits}
use dspc8681_linux_driver.BootLoader.ThirdBl.{line_8, lines_2, lines_9_on, lines_1829, lines_1840}
use dspc8681_linux_driver.BootLoader.ThirdBl.Words.{
  line_words, lines_words, line_words-IsWord, lines_words-IsWord, length-line_words,
  length-lines_words,
}
use dspc8681_linux_driver.BootLoader.ThirdBl.Table.{
  length-lines_9_on, boot_section, text_section, strings_section, tables_section, third_bl_sections,
}

pub length-boot_section : length boot_section.words ≡ 32
unfolding lines_words line_words lines_2
length-boot_section = refl

pub length-text_section : length text_section.words ≡ 10920
length-text_section =
    simp (length-append, length-drop, length-line_words, length-lines_words, length-lines_9_on)

pub length-strings_section : length strings_section.words ≡ 64
unfolding lines_words line_words lines_1829
length-strings_section = refl

pub length-tables_section : length tables_section.words ≡ 149
unfolding lines_words line_words lines_1840
length-tables_section = refl

section-IsSection :
    (s : Section) (n : ℕ)
    → length s.words ≡ n
    → 0 < s.size
    → (s.size + 3) / 4 ≡ n
    → s.size < 2 ^ 20
    → IsWord s.address
    → All IsWord s.words
    → IsSection s
section-IsSection s n e some_bytes rounded small address words = record {
  some_bytes = ground arith;
  rounded = rounded ∙ sym e;
  small = omega arith;
  address_word = address;
  words_IsWord = words;
}

pub third_bl_sections-IsSection : All IsSection third_bl_sections
third_bl_sections-IsSection = (
  section-IsSection boot_section 32 length-boot_section (omega arith) refl (omega arith)
      (omega arith)
      ((All-append_iff IsWord (drop 3 (lines_words lines_2)) (line_words 5 0)).1
        (All-drop IsWord 3 _ (lines_words-IsWord lines_2), line_words-IsWord 5 0)),
  (
    section-IsSection text_section 10920 length-text_section (omega arith) refl (omega arith)
        (omega arith)
        ((All-append_iff IsWord (drop 2 (line_words 6 line_8)) _).1 (
          All-drop IsWord 2 _ (line_words-IsWord 6 line_8),
          (All-append_iff IsWord (lines_words lines_9_on) _).1
              (lines_words-IsWord lines_9_on, line_words-IsWord 2 0),
        )),
    (
      section-IsSection strings_section 64 length-strings_section (omega arith) refl (omega arith)
          (omega arith) (All-drop IsWord 2 _ (lines_words-IsWord lines_1829)),
      (
        section-IsSection tables_section 149 length-tables_section (omega arith) refl (omega arith)
            (omega arith)
            ((All-append_iff IsWord (drop 2 (lines_words lines_1840)) _).1
              (All-drop IsWord 2 _ (lines_words-IsWord lines_1840), (omega arith, tt))),
        tt,
      ),
    ),
  ),
)

-- The first word of each section in the L2 memory.
pub boot_section-placement : placement boot_section.address ≡ some (in_ll2, 0x18000)
unfolding placement
boot_section-placement = refl

pub text_section-placement : placement text_section.address ≡ some (in_ll2, 0x18080)
unfolding placement
text_section-placement = refl

pub strings_section-placement : placement strings_section.address ≡ some (in_ll2, 0x1C0DB)
unfolding placement
strings_section-placement = refl

pub tables_section-placement : placement tables_section.address ≡ some (in_ll2, 0x1BFEE)
unfolding placement
tables_section-placement = refl

section-Fits :
    (m : DspMemory) (s : Section) (index n : ℕ)
    → length s.words ≡ n
    → placement s.address ≡ some (in_ll2, index)
    → index + n ≤ m.ll2.size
    → Fits m s
section-Fits m s index n e placed mapped = record {
  region = in_ll2;
  index = index;
  placed = placed;
  mapped = omega arith;
}

-- They fit in half a megabyte.
pub third_bl_sections-Fits : (m : DspMemory) → 0x20000 ≤ m.ll2.size → All (Fits m) third_bl_sections
third_bl_sections-Fits m h = (
  section-Fits m boot_section 0x18000 32 length-boot_section boot_section-placement (omega arith),
  (
    section-Fits m text_section 0x18080 10920 length-text_section text_section-placement
        (omega arith),
    (
      section-Fits m strings_section 0x1C0DB 64 length-strings_section strings_section-placement
          (omega arith),
      (
        section-Fits m tables_section 0x1BFEE 149 length-tables_section tables_section-placement
            (omega arith),
        tt,
      ),
    ),
  ),
)
