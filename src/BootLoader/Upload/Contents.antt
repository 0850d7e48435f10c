-- ===== src/BootLoader/Upload/Contents.antt =====
-- What can be read back after `uploadProgram`, word by word.
use dspc8681_linux_driver.Base.{
  ℕ, ◌+◌, ◌<◌, ◌≡◌, ◌≢◌, ◌⊎◌, inl, inr, refl, ◌∙◌, arith, IsWord, pos, List, [], ◌∷◌, ◌++◌, length,
  get_elem?, All, Option, none, some, done,
}
use native.Mathlib.Decide.{dec_lt}
use dspc8681_linux_driver.BootLoader.Memory.{DspMemory, Region, in_ll2}
use dspc8681_linux_driver.BootLoader.Memory.Overlay.{overlay_memory}
use dspc8681_linux_driver.BootLoader.Memory.Overlay.Lookup.{
  IsOutside, word_of, overlay_memory_outside, overlay_memory_at,
}
use dspc8681_linux_driver.BootLoader.Memory.Placement.{placement, magic_index}
use dspc8681_linux_driver.BootLoader.Upload.{upload_program}
use dspc8681_linux_driver.BootLoader.Upload.Table.{Section, IsSection, table_bytes}
use dspc8681_linux_driver.BootLoader.Upload.Correct.{
  put_words, load, IsMapped, Fits, upload_program-load,
}

-- The section does not cover word `j` of the region.
abbrev pub Misses : Region → ℕ → Section → Type 0
Misses q j s =
    (region : Region) (index : ℕ)
    → placement s.address ≡ some (region, index)
    → (q ≢ region) ⊎ IsOutside j index (length s.words)

put_words_outside :
    (m : DspMemory) (place : Option (Region × ℕ)) (ws : List ℕ) (q : Region) (j : ℕ)
    → ((region : Region) (index : ℕ)
        → place ≡ some (region, index)
        → (q ≢ region) ⊎ IsOutside j index (length ws))
    → word_of (put_words m place ws) q j ≡ word_of m q j
unfolding put_words
put_words_outside m none ws q j h = refl
put_words_outside m (some (region, index)) ws q j h =
    overlay_memory_outside m region q index j ws (h region index refl)

load_outside :
    (m : DspMemory) (ss : List Section) (q : Region) (j : ℕ)
    → All (Misses q j) ss
    → word_of (load m ss) q j ≡ word_of m q j
unfolding load
load_outside m [] q j h = refl
load_outside m (s ∷ ss) q j (h, hs) =
    load_outside (put_words m (placement s.address) s.words) ss q j hs
    ∙ put_words_outside m (placement s.address) s.words q j h

load_at :
    (m : DspMemory) (xs ys : List Section) (s : Section) (region : Region) (index i w : ℕ)
    → placement s.address ≡ some (region, index)
    → get_elem? s.words i ≡ some w
    → All (Misses region (index + i)) ys
    → word_of (load m (xs ++ s ∷ ys)) region (index + i) ≡ w
unfolding load put_words
load_at m [] ys s region index i w placed word clear =
    load_outside (put_words m (placement s.address) s.words) ys region (index + i) clear
    ∙ rw placed (overlay_memory_at m region index i w s.words word)
load_at m (x ∷ xs) ys s region index i w placed word clear =
    load_at (put_words m (placement x.address) x.words) xs ys s region index i w placed word clear

-- Not the word at `MAGIC_ADDR`.
abbrev pub IsNotMagic : Region → ℕ → Type 0
IsNotMagic q j = (q ≢ in_ll2) ⊎ (j ≢ magic_index)

entry_outside :
    (m : DspMemory) (entry : ℕ) (q : Region) (j : ℕ)
    → IsNotMagic q j
    → word_of (overlay_memory m in_ll2 magic_index (entry ∷ [])) q j ≡ word_of m q j
entry_outside m entry q j (inl other) =
    overlay_memory_outside m in_ll2 q magic_index j (entry ∷ []) (inl other)
entry_outside m entry q j (inr beside) = elim (dec_lt j magic_index) [
  | yes below ↦ overlay_memory_outside m in_ll2 q magic_index j (entry ∷ []) (inr (inl below))
  | no not_below ↦
      overlay_memory_outside m in_ll2 q magic_index j (entry ∷ []) (inr (inr (ground arith)))
]

-- What the memory `m'` has after the sections and the entry address went over `m`.
pub record Contents (m m' : DspMemory) (entry : ℕ) (ss : List Section) : Type 0 where
  pub entry_stored : word_of m' in_ll2 magic_index ≡ entry
  pub words_stored :
      (xs ys : List Section) (s : Section) (region : Region) (index i w : ℕ)
      → ss ≡ xs ++ s ∷ ys
      → placement s.address ≡ some (region, index)
      → get_elem? s.words i ≡ some w
      → All (Misses region (index + i)) ys
      → IsNotMagic region (index + i)
      → word_of m' region (index + i) ≡ w
  pub others_kept :
      (q : Region) (j : ℕ) → All (Misses q j) ss → IsNotMagic q j → word_of m' q j ≡ word_of m q j

-- Reading back: on a boot table as for `upload_program-load`, `uploadProgram` returns 0 with a memory
-- in which each word of a section is at its place, unless a later section or the entry address
-- covers it, the entry address is at `MAGIC_ADDR`, and every word that no section and no entry
-- address covers is as before.
pub upload_program-Contents :
    (fuel core_num entry : ℕ) (m : DspMemory) (ss : List Section) (rest : List ℕ)
    → length ss < fuel
    → IsWord entry
    → IsMapped m
    → magic_index < m.ll2.size
    → All IsSection ss
    → All (Fits m) ss
    → (m' : DspMemory) × (upload_program fuel m (table_bytes entry ss rest) core_num
        ≡ done (m', pos 0))
      × Contents m m' entry ss
upload_program-Contents fuel core_num entry m ss rest enough he h hm vs fs = (
  overlay_memory (load m ss) in_ll2 magic_index (entry ∷ []),
  upload_program-load fuel core_num entry m ss rest enough he h hm vs fs,
  record {
    entry_stored = overlay_memory_at (load m ss) in_ll2 magic_index 0 entry (entry ∷ []) refl;
    words_stored = λ xs ys s region index i w e placed word clear not_magic.
        entry_outside (load m ss) entry region (index + i) not_magic
        ∙ rw e (load_at m xs ys s region index i w placed word clear);
    others_kept = λ q j clear not_magic.
        entry_outside (load m ss) entry q j not_magic ∙ load_outside m ss q j clear;
  },
)
