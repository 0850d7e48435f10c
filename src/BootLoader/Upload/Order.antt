-- ===== src/BootLoader/Upload/Order.antt =====
-- The order of the sections in a boot table, as long as they do not meet.
use dspc8681_linux_driver.Base.{
  ℕ, ◌+◌, ◌≤◌, ◌<◌, ◌≡◌, ◌≢◌, ◌⊎◌, refl, sym, ap, ◌∙◌, IsWord, List, [], ◌∷◌, ◌++◌, length, All,
  Option, none, some,
}
use mathlib.Core.Quot
use mathlib.Core.Quot.{Quot, Quot-set}
use dspc8681_linux_driver.BootLoader.Memory.{DspMemory, Region}
use dspc8681_linux_driver.BootLoader.Memory.Overlay.Lookup.{overlay_memory_comm}
use dspc8681_linux_driver.BootLoader.Memory.Placement.{placement, magic_index}
use dspc8681_linux_driver.BootLoader.Upload.{upload_program}
use dspc8681_linux_driver.BootLoader.Upload.Table.{Section, IsSection, table_bytes}
use dspc8681_linux_driver.BootLoader.Upload.Correct.{
  put_words, load, IsMapped, Fits, upload_program-load,
}

-- Two sections that share no word.
abbrev pub IsApart : Section → Section → Type 0
IsApart s t =
    (p q : Region) (a b : ℕ)
    → placement s.address ≡ some (p, a)
    → placement t.address ≡ some (q, b)
    → (q ≢ p) ⊎ ((a + length s.words ≤ b) ⊎ (b + length t.words ≤ a))

-- Two neighbours that share no word change places.
pub data Swap : List Section → List Section → Type 0 where
  swap :
      (xs : List Section) (s t : Section) (ys : List Section)
      → IsApart s t
      → Swap (xs ++ s ∷ t ∷ ys) (xs ++ t ∷ s ∷ ys)

-- Boot tables up to such changes.
abbrev pub Program : Type 0
Program = Quot Swap

put_words_comm :
    (m : DspMemory) (p q : Option (Region × ℕ)) (ws vs : List ℕ)
    → ((r r' : Region) (a b : ℕ)
        → p ≡ some (r, a)
        → q ≡ some (r', b)
        → (r' ≢ r) ⊎ ((a + length ws ≤ b) ⊎ (b + length vs ≤ a)))
    → put_words (put_words m p ws) q vs ≡ put_words (put_words m q vs) p ws
unfolding put_words
put_words_comm m none q ws vs apart = refl
put_words_comm m (some p) none ws vs apart = refl
put_words_comm m (some (r, a)) (some (r', b)) ws vs apart =
    overlay_memory_comm m r r' a b ws vs (apart r r' a b refl refl)

load-swap :
    (m : DspMemory) (xs : List Section) (s t : Section) (ys : List Section)
    → IsApart s t
    → load m (xs ++ s ∷ t ∷ ys) ≡ load m (xs ++ t ∷ s ∷ ys)
unfolding load
load-swap m [] s t ys apart =
    ap (λ m'. load m' ys)
      (put_words_comm m (placement s.address) (placement t.address) s.words t.words apart)
load-swap m (x ∷ xs) s t ys apart =
    load-swap (put_words m (placement x.address) x.words) xs s t ys apart

load-Swap : (m : DspMemory) (ss ts : List Section) → Swap ss ts → load m ss ≡ load m ts
load-Swap m _ _ (swap xs s t ys apart) = load-swap m xs s t ys apart

DspMemory-set : IsSet DspMemory
DspMemory-set = hlevel

-- The memory that a program leaves, whatever the order of its sections.
load_program : DspMemory → Program → DspMemory
load_program m = Quot.lift DspMemory-set (load m) (load-Swap m)

-- Order: on two boot tables with the same entry address and the same sections, up to changes of
-- neighbours that share no word, `uploadProgram` has the same outcome, for all core numbers. The
-- tables are as for `upload_program-load`.
pub upload_program-order :
    (fuel core_num core_num' entry : ℕ) (m : DspMemory) (ss ts : List Section) (rest rest' : List ℕ)
    → length ss < fuel
    → length ts < fuel
    → IsWord entry
    → IsMapped m
    → magic_index < m.ll2.size
    → All IsSection ss
    → All (Fits m) ss
    → All IsSection ts
    → All (Fits m) ts
    → ◌≡◌ {A = Program} (Quot.mk ss) (Quot.mk ts)
    → upload_program fuel m (table_bytes entry ss rest) core_num
      ≡ upload_program fuel m (table_bytes entry ts rest') core_num'
unfolding load_program
upload_program-order fuel core_num core_num' entry m ss ts rest rest' p q he h hm vs fs vt ft same =
    let loaded : load m ss ≡ load m ts = ap (load_program m) same in
    upload_program-load fuel core_num entry m ss rest p he h hm vs fs
    ∙ rw loaded (sym (upload_program-load fuel core_num' entry m ts rest' q he h hm vt ft))
