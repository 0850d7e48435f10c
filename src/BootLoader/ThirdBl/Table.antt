-- ===== src/BootLoader/ThirdBl/Table.antt =====
-- `_thirdBLCode_U0` as a boot table: its entry address and its four sections.
use dspc8681_linux_driver.Base.{
  arith, ◌*◌, ℕ, ◌≡◌, refl, sym, ap, ◌∙◌, List, [], ◌∷◌, ◌++◌, length, length-append, drop,
}
use mathlib.Core.List.{append_assoc}
use dspc8681_linux_driver.BootLoader.Upload.Table.{
  Section, first_size, table_bytes, sections_bytes, words_bytes, words_bytes-append,
}
use dspc8681_linux_driver.BootLoader.ThirdBl.{
  length-line_bytes, line_bytes, lines_bytes, lines_2, line_8, lines_9_on, lines_1829, lines_1840,
  third_bl_code_u0,
}
use dspc8681_linux_driver.BootLoader.ThirdBl.Words.{
  line_words, lines_words, line_bytes-words, lines_bytes-words,
}
use dspc8681_linux_driver.BootLoader.ThirdBl.Lines9.{length-lines_9}
use dspc8681_linux_driver.BootLoader.ThirdBl.Lines159.{length-lines_159}
use dspc8681_linux_driver.BootLoader.ThirdBl.Lines309.{length-lines_309}
use dspc8681_linux_driver.BootLoader.ThirdBl.Lines459.{length-lines_459}
use dspc8681_linux_driver.BootLoader.ThirdBl.Lines609.{length-lines_609}
use dspc8681_linux_driver.BootLoader.ThirdBl.Lines759.{length-lines_759}
use dspc8681_linux_driver.BootLoader.ThirdBl.Lines909.{length-lines_909}
use dspc8681_linux_driver.BootLoader.ThirdBl.Lines1059.{length-lines_1059}
use dspc8681_linux_driver.BootLoader.ThirdBl.Lines1209.{length-lines_1209}
use dspc8681_linux_driver.BootLoader.ThirdBl.Lines1359.{length-lines_1359}
use dspc8681_linux_driver.BootLoader.ThirdBl.Lines1509.{length-lines_1509}
use dspc8681_linux_driver.BootLoader.ThirdBl.Lines1659.{length-lines_1659}
use dspc8681_linux_driver.BootLoader.ThirdBl.Lines1809.{length-lines_1809}

-- A boot table without anything behind it is whole words.
sections_words : List Section → List ℕ
sections_words [] = []
sections_words (s ∷ ss) = s.address ∷ (s.words ++ (first_size ss ∷ sections_words ss))

table_words : ℕ → List Section → List ℕ
table_words entry ss = entry ∷ first_size ss ∷ sections_words ss

sections_bytes-words : (ss : List Section) → sections_bytes ss [] ≡ words_bytes (sections_words ss)
unfolding sections_bytes sections_words
sections_bytes-words [] = refl
sections_bytes-words (s ∷ ss) =
    rw (sections_bytes-words ss, words_bytes-append s.words (first_size ss ∷ sections_words ss))
      refl

table_bytes-words :
    (entry : ℕ) (ss : List Section) → table_bytes entry ss [] ≡ words_bytes (table_words entry ss)
unfolding table_bytes table_words
table_bytes-words entry ss = rw (sections_bytes-words ss) refl

abbrev pub boot_section : Section
boot_section = record {
  size = 128;
  address = 0x00860000;
  words = drop 3 (lines_words lines_2) ++ line_words 5 0;
}

abbrev pub text_section : Section
text_section = record {
  size = 43680;
  address = 0x00860200;
  words = drop 2 (line_words 6 line_8) ++ (lines_words lines_9_on ++ line_words 2 0);
}

abbrev pub strings_section : Section
strings_section = record {
  size = 256;
  address = 0x0087036C;
  words = drop 2 (lines_words lines_1829);
}

abbrev pub tables_section : Section
tables_section = record {
  size = 594;
  address = 0x0086FFB8;
  words = drop 2 (lines_words lines_1840) ++ (0x00000F0E ∷ []);
}

abbrev pub third_bl_sections : List Section
third_bl_sections = boot_section ∷ text_section ∷ strings_section ∷ tables_section ∷ []

third_bl_words : List ℕ
third_bl_words =
    lines_words lines_2
    ++ (line_words 5 0
        ++ (lines_words (line_8 ∷ lines_9_on)
            ++ (line_words 2 0
                ++ (lines_words lines_1829
                    ++ (lines_words lines_1840 ++ line_words 2 0x00000F0E00000000)))))

append-words_bytes :
    {xs ys : List ℕ} (ws vs : List ℕ)
    → xs ≡ words_bytes ws
    → ys ≡ words_bytes vs
    → xs ++ ys ≡ words_bytes (ws ++ vs)
append-words_bytes ws vs e e' = rw (e, e') (sym (words_bytes-append ws vs))

third_bl_code_u0-words : third_bl_code_u0 ≡ words_bytes third_bl_words
unfolding third_bl_code_u0 third_bl_words
third_bl_code_u0-words = append-words_bytes (lines_words lines_2) _ (lines_bytes-words lines_2) (
    append-words_bytes (line_words 5 0) _ (line_bytes-words 5 0) (
      append-words_bytes (lines_words (line_8 ∷ lines_9_on)) _
        (lines_bytes-words (line_8 ∷ lines_9_on))
        (append-words_bytes (line_words 2 0) _ (line_bytes-words 2 0) (
          append-words_bytes (lines_words lines_1829) _ (lines_bytes-words lines_1829) (
            append-words_bytes (lines_words lines_1840) (line_words 2 0x00000F0E00000000)
              (lines_bytes-words lines_1840) (line_bytes-words 2 0x00000F0E00000000))))))

third_bl_words-table : third_bl_words ≡ table_words 0x00860000 third_bl_sections
unfolding third_bl_words table_words sections_words lines_words line_words lines_2 lines_1829
    lines_1840
third_bl_words-table = rw (append_assoc (lines_words lines_9_on) (line_words 2 0) _) refl

pub third_bl_code_u0-table : third_bl_code_u0 ≡ table_bytes 0x00860000 third_bl_sections []
third_bl_code_u0-table =
    third_bl_code_u0-words
    ∙ ap words_bytes third_bl_words-table
    ∙ sym (table_bytes-words 0x00860000 third_bl_sections)

pub length-lines_9_on : length lines_9_on ≡ 1819
unfolding lines_9_on
length-lines_9_on = simp (
  length-append, length-lines_9, length-lines_159, length-lines_309, length-lines_459,
  length-lines_609, length-lines_759, length-lines_909, length-lines_1059, length-lines_1209,
  length-lines_1359, length-lines_1509, length-lines_1659, length-lines_1809,
)

length-lines_bytes : (ns : List ℕ) → length (lines_bytes ns) ≡ 24 * length ns
unfolding lines_bytes
length-lines_bytes [] = refl
length-lines_bytes (n ∷ ns) =
    length-append (line_bytes 24 n) (lines_bytes ns)
    ∙ omega (arith, length-line_bytes 24 n, length-lines_bytes ns)

pub length-third_bl_code_u0 : length third_bl_code_u0 ≡ 44700
unfolding third_bl_code_u0 lines_2 lines_1829 lines_1840
length-third_bl_code_u0 =
    simp (length-append, length-line_bytes, length-lines_bytes, length-lines_9_on)
