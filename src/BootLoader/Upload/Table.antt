-- ===== src/BootLoader/Upload/Table.antt =====
-- The boot table that `uploadProgram` reads: the entry address, then for each section its size in
-- bytes, its address and its words, all big-endian, and a size of 0 at the end.
use dspc8681_linux_driver.Base.{
  ℕ, ◌+◌, ◌*◌, ◌/◌, ◌^◌, ◌<◌, ◌≡◌, ◌≢◌, refl, arith, IsWord, List, [], ◌∷◌, ◌++◌, length, All, done,
}
use mathlib.Core.List.{append_assoc}
use dspc8681_linux_driver.Common.Bytes.{word_bytes, byte_to_32bits-word_bytes}
use dspc8681_linux_driver.BootLoader.Upload.{read_word, read_words, adjust_size}

pub record Section : Type 0 where
  pub size : ℕ
  pub address : ℕ
  pub words : List ℕ

-- The size is that of the words, or up to three bytes less.
pub record IsSection (s : Section) : Type 0 where
  pub some_bytes : s.size ≢ 0
  pub rounded : (s.size + 3) / 4 ≡ length s.words
  pub small : s.size + 3 < 2 ^ 32
  pub address_word : IsWord s.address
  pub words_IsWord : All IsWord s.words

abbrev pub words_bytes : List ℕ → List ℕ
words_bytes [] = []
words_bytes (w ∷ ws) = word_bytes w ++ words_bytes ws

-- The size that stands before the sections `ss`.
abbrev pub first_size : List Section → ℕ
first_size [] = 0
first_size (s ∷ ss) = s.size

-- What stands behind the size of the first section, up to `rest`.
unfoldable pub sections_bytes : List Section → List ℕ → List ℕ
sections_bytes [] rest = rest
sections_bytes (s ∷ ss) rest =
    word_bytes s.address
    ++ (words_bytes s.words ++ (word_bytes (first_size ss) ++ sections_bytes ss rest))

unfoldable pub table_bytes : ℕ → List Section → List ℕ → List ℕ
table_bytes entry ss rest =
    word_bytes entry ++ (word_bytes (first_size ss) ++ sections_bytes ss rest)

pub read_word_lem :
    (w : ℕ) (rest : List ℕ) → IsWord w → read_word (word_bytes w ++ rest) ≡ done (w, rest)
unfolding read_word
read_word_lem w rest h = rw (byte_to_32bits-word_bytes w rest h)

pub read_words_lem :
    (ws rest : List ℕ)
    → All IsWord ws
    → read_words (length ws) (words_bytes ws ++ rest) ≡ done (ws, rest)
unfolding read_words
read_words_lem [] rest h = refl
read_words_lem (w ∷ ws) rest (hw, hs) = rw (
  append_assoc (word_bytes w) (words_bytes ws) rest,
  read_word_lem w (words_bytes ws ++ rest) hw,
  read_words_lem ws rest hs,
)

pub words_bytes-append :
    (xs ys : List ℕ) → words_bytes (xs ++ ys) ≡ words_bytes xs ++ words_bytes ys
words_bytes-append [] ys = refl
words_bytes-append (x ∷ xs) ys = rw (words_bytes-append xs ys)

-- The size of a section, rounded up, is that of its words.
pub adjust_size_lem : (s : Section) → IsSection s → adjust_size s.size ≡ length s.words * 4
unfolding adjust_size
adjust_size_lem s v = ground arith
