-- ===== src/Common/Bytes.antt =====
-- `byteTo32bits` against the big-endian encoding of a word.
use dspc8681_linux_driver.Base.{
  ℕ, ◌+◌, ◌*◌, ◌%◌, ◌^◌, ◌<◌, ◌≡◌, refl, ap, ◌∙◌, arith, u32, shl, shr, bit_or, IsByte, IsWord,
  List, [], ◌∷◌, ◌++◌, none, some, length,
}
use dspc8681_linux_driver.Base.Bits.{bit_or_fields}
use dspc8681_linux_driver.Common.{byte_to_32bits}

-- The four bytes of a word, the highest first.
abbrev pub word_bytes : ℕ → List ℕ
word_bytes w = shr w 24 % 256 ∷ shr w 16 % 256 ∷ shr w 8 % 256 ∷ w % 256 ∷ []

push_byte : (t b : ℕ) → t < 2 ^ 24 → IsByte b → bit_or (u32 (shl t 8)) b ≡ t * 256 + b
push_byte t b ht hb = ground (arith, bit_or_fields 8 t b hb)

pub byte_to_32bits-sum :
    (a b c d : ℕ) (rest : List ℕ)
    → IsByte a
    → IsByte b
    → IsByte c
    → IsByte d
    → byte_to_32bits (a ∷ b ∷ c ∷ d ∷ rest) ≡ some (a * 2 ^ 24 + b * 2 ^ 16 + c * 2 ^ 8 + d)
unfolding byte_to_32bits
byte_to_32bits-sum a b c d rest ha hb hc hd =
    rw
      (
        push_byte a b (omega arith) hb,
        push_byte (a * 256 + b) c (omega arith) hc,
        push_byte ((a * 256 + b) * 256 + c) d (omega arith) hd,
      )
      (ap some (omega arith))

-- Round trip: reading at the big-endian bytes of a word gives the word, whatever follows them.
pub byte_to_32bits-word_bytes :
    (w : ℕ) (rest : List ℕ) → IsWord w → byte_to_32bits (word_bytes w ++ rest) ≡ some w
byte_to_32bits-word_bytes w rest h =
    byte_to_32bits-sum _ _ _ _ rest (omega arith) (omega arith) (omega arith) (omega arith)
    ∙ ap some (omega arith)

-- It reads exactly four bytes: with fewer it runs past the array.
pub byte_to_32bits-short : (p : List ℕ) → length p < 4 → byte_to_32bits p ≡ none
unfolding byte_to_32bits
byte_to_32bits-short [] h = refl
byte_to_32bits-short (a ∷ []) h = refl
byte_to_32bits-short (a ∷ b ∷ []) h = refl
byte_to_32bits-short (a ∷ b ∷ c ∷ []) h = refl
byte_to_32bits-short (a ∷ b ∷ c ∷ d ∷ p) h = absurd (omega arith)
