-- ===== src/BootLoader/ThirdBl/Words.antt =====
-- The 32-bit words of `_thirdBLCode_U0`, whose lines are of whole words.
use dspc8681_linux_driver.Base.{
  ℕ, zero, suc, ◌+◌, ◌*◌, ◌/◌, ◌%◌, ◌^◌, ◌≡◌, refl, sym, ap, ap₂, shr, ◌∙◌, arith, IsWord, List, [],
  ◌∷◌, ◌++◌, length, All, All-append_iff, length-append,
}
use native.Mathlib.Nat.{div-div-eq-div-mul, mul_assoc, pow-suc}
use dspc8681_linux_driver.Common.Bytes.{word_bytes}
use dspc8681_linux_driver.BootLoader.Upload.Table.{words_bytes, words_bytes-append}
use dspc8681_linux_driver.BootLoader.ThirdBl.{line_bytes, lines_bytes}

-- The words of a line.
unfoldable pub line_words : ℕ → ℕ → List ℕ
line_words zero n = []
line_words (suc k) n = n / 2 ^ (32 * k) % 2 ^ 32 ∷ line_words k n

unfoldable pub lines_words : List ℕ → List ℕ
lines_words [] = []
lines_words (n ∷ ns) = line_words 6 n ++ lines_words ns

pow-add : (e c : ℕ) → 2 ^ (e + c) ≡ 2 ^ e * 2 ^ c
pow-add e zero = let no_more : e + 0 ≡ e = omega arith in rw no_more (omega arith)
pow-add e (suc c) =
    let next : e + suc c ≡ suc (e + c) = omega arith in
    rw next (pow-suc 2 (e + c) ∙ rw (pow-add e c, pow-suc 2 c) (mul_assoc (2 ^ e) (2 ^ c) 2))

div-pow-add : (e c n : ℕ) → n / 2 ^ (e + c) ≡ n / 2 ^ e / 2 ^ c
div-pow-add e c n = rw (pow-add e c) (sym (div-div-eq-div-mul n (2 ^ e) (2 ^ c)))

word_bytes-mod :
    (x : ℕ)
    → (x / 2 ^ 24 % 256 ∷ x / 2 ^ 16 % 256 ∷ x / 2 ^ 8 % 256 ∷ x % 256 ∷ [])
      ≡ word_bytes (x % 2 ^ 32)
word_bytes-mod x = rw (b3, b2, b1, b0) refl
  where
    b3 : shr (x % 2 ^ 32) 24 % 256 ≡ x / 2 ^ 24 % 256
    b3 = omega arith

    b2 : shr (x % 2 ^ 32) 16 % 256 ≡ x / 2 ^ 16 % 256
    b2 = omega arith

    b1 : shr (x % 2 ^ 32) 8 % 256 ≡ x / 2 ^ 8 % 256
    b1 = omega arith

    b0 : x % 2 ^ 32 % 256 ≡ x % 256
    b0 = omega arith

pub line_bytes-words : (k n : ℕ) → line_bytes (4 * k) n ≡ words_bytes (line_words k n)
unfolding line_bytes line_words
line_bytes-words zero n = refl
line_bytes-words (suc k) n = rw four (
    rw
      (
        e3,
        e2,
        e1,
        e0,
        div-pow-add (32 * k) 24 n,
        div-pow-add (32 * k) 16 n,
        div-pow-add (32 * k) 8 n,
      )
      (ap₂ (◌++◌) (word_bytes-mod (n / 2 ^ (32 * k))) (line_bytes-words k n)))
  where
    four : 4 * suc k ≡ suc (suc (suc (suc (4 * k))))
    four = omega arith

    e3 : 8 * suc (suc (suc (4 * k))) ≡ 32 * k + 24
    e3 = omega arith

    e2 : 8 * suc (suc (4 * k)) ≡ 32 * k + 16
    e2 = omega arith

    e1 : 8 * suc (4 * k) ≡ 32 * k + 8
    e1 = omega arith

    e0 : 8 * (4 * k) ≡ 32 * k
    e0 = omega arith

pub lines_bytes-words : (ns : List ℕ) → lines_bytes ns ≡ words_bytes (lines_words ns)
unfolding lines_bytes lines_words
lines_bytes-words [] = refl
lines_bytes-words (n ∷ ns) =
    rw
      (
        line_bytes-words 6 n,
        lines_bytes-words ns,
        words_bytes-append (line_words 6 n) (lines_words ns),
      )
      refl

pub line_words-IsWord : (k n : ℕ) → All IsWord (line_words k n)
unfolding line_words
line_words-IsWord zero n = tt
line_words-IsWord (suc k) n = (omega arith, line_words-IsWord k n)

pub lines_words-IsWord : (ns : List ℕ) → All IsWord (lines_words ns)
unfolding lines_words
lines_words-IsWord [] = tt
lines_words-IsWord (n ∷ ns) =
    (All-append_iff IsWord (line_words 6 n) (lines_words ns)).1
      (line_words-IsWord 6 n, lines_words-IsWord ns)

pub length-line_words : (k n : ℕ) → length (line_words k n) ≡ k
unfolding line_words
length-line_words zero n = refl
length-line_words (suc k) n = ap suc (length-line_words k n)

pub length-lines_words : (ns : List ℕ) → length (lines_words ns) ≡ 6 * length ns
unfolding lines_words
length-lines_words [] = refl
length-lines_words (n ∷ ns) =
    length-append (line_words 6 n) (lines_words ns)
    ∙ omega (arith, length-line_words 6 n, length-lines_words ns)
