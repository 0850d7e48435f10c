-- ===== src/Crc/Detect.antt =====
-- What the CRC detects: any change that is confined to four consecutive bytes.
use dspc8681_linux_driver.Base.{
  ℕ, ◌+◌, ◌*◌, ◌^◌, ◌<◌, ◌≡◌, sym, ap, ◌∙◌, arith, List, [], ◌∷◌, ◌++◌, some, length, All,
  All-append_iff, not32, bit_xor, IsByte, IsWord,
}
use dspc8681_linux_driver.Base.Bits.{
  bit_xor_assoc, bit_xor-lt, bit_xor_fields, bit_xor_injective_left,
}
use native.Mathlib.Nat.{le_trans}
use dspc8681_linux_driver.Crc.{crc32_get_crc}
use dspc8681_linux_driver.Crc.Shift.{
  crc_shifts, crc_byte, crc_shifts-lt, crc_shifts-xor, crc_shifts_low,
}
use dspc8681_linux_driver.Crc.Stream.{
  crc_register, crc_register-append, crc_register-lt, crc32_get_crc-register,
}
use dspc8681_linux_driver.Crc.Injective.{crc_shifts_four_injective, crc_register_injective}

-- A number that enters after eight steps may as well enter before them, eight bits lower.
absorb :
    (x t u : ℕ)
    → IsWord x
    → t < 2 ^ 24
    → u ≡ t * 2 ^ 8
    → bit_xor (crc_shifts 8 x) u ≡ crc_shifts 8 (bit_xor x t)
absorb x t u hx ht hu =
    rw hu
      (sym (rw (crc_shifts-xor 8 hx (le_trans ht (omega arith)), crc_shifts_low 8 t (omega arith))))

-- Four bytes as one word, the first at the top.
abbrev word : ℕ → ℕ → ℕ → ℕ → ℕ
word a b c d = a * 2 ^ 24 + b * 2 ^ 16 + c * 2 ^ 8 + d

xor_word :
    (s a b c d : ℕ)
    → IsByte b
    → IsByte c
    → IsByte d
    → bit_xor (bit_xor (bit_xor (bit_xor s (a * 2 ^ 24)) (b * 2 ^ 16)) (c * 2 ^ 8)) d
      ≡ bit_xor s (word a b c d)
xor_word s a b c d hb hc hd =
    bit_xor_assoc _ (c * 2 ^ 8) d
    ∙ bit_xor_assoc _ (b * 2 ^ 16) _
    ∙ bit_xor_assoc s (a * 2 ^ 24) _
    ∙ ap (bit_xor s) fields
  where
    fields : bit_xor (a * 2 ^ 24) (bit_xor (b * 2 ^ 16) (bit_xor (c * 2 ^ 8) d)) ≡ word a b c d
    fields =
        rw
          (
            bit_xor_fields 8 c d hd,
            bit_xor_fields 16 b (c * 2 ^ 8 + d) (omega arith),
            bit_xor_fields 24 a (b * 2 ^ 16 + (c * 2 ^ 8 + d)) (omega arith),
          )
          (omega arith)

-- Four bytes enter the register as one word, before 32 steps.
four_bytes :
    (s a b c d : ℕ)
    → IsWord s
    → IsByte a
    → IsByte b
    → IsByte c
    → IsByte d
    → crc_register s (a ∷ b ∷ c ∷ d ∷ [])
      ≡ crc_shifts 8 (crc_shifts 8 (crc_shifts 8 (crc_shifts 8 (bit_xor s (word a b c d)))))
unfolding crc_register crc_byte
four_bytes s a b c d hs ha hb hc hd = rw (
  absorb x0 (b * 2 ^ 16) (b * 2 ^ 24) h0 (omega arith) (omega arith),
  absorb (crc_shifts 8 x1) (c * 2 ^ 16) (c * 2 ^ 24) (crc_shifts-lt 8 h1) (omega arith)
      (omega arith),
  absorb x1 (c * 2 ^ 8) (c * 2 ^ 16) h1 (omega arith) (omega arith),
  absorb (crc_shifts 8 (crc_shifts 8 x2)) (d * 2 ^ 16) (d * 2 ^ 24)
      (crc_shifts-lt 8 (crc_shifts-lt 8 h2)) (omega arith) (omega arith),
  absorb (crc_shifts 8 x2) (d * 2 ^ 8) (d * 2 ^ 16) (crc_shifts-lt 8 h2) (omega arith)
      (omega arith),
  absorb x2 d (d * 2 ^ 8) h2 (omega arith) (omega arith),
  xor_word s a b c d hb hc hd,
)
  where
    x0 : ℕ
    x0 = bit_xor s (a * 2 ^ 24)

    x1 : ℕ
    x1 = bit_xor x0 (b * 2 ^ 16)

    x2 : ℕ
    x2 = bit_xor x1 (c * 2 ^ 8)

    h0 : IsWord x0
    h0 = bit_xor-lt 32 hs (omega arith)

    h1 : IsWord x1
    h1 = bit_xor-lt 32 h0 (omega arith)

    h2 : IsWord x2
    h2 = bit_xor-lt 32 h1 (omega arith)

-- Two registers that agree after the same bytes, agree before four bytes each of which may differ.
four_bytes_injective :
    (s a b c d a' b' c' d' : ℕ) (ys : List ℕ)
    → IsWord s
    → All IsByte (a ∷ b ∷ c ∷ d ∷ ys)
    → All IsByte (a' ∷ b' ∷ c' ∷ d' ∷ ys)
    → crc_register s (a ∷ b ∷ c ∷ d ∷ ys) ≡ crc_register s (a' ∷ b' ∷ c' ∷ d' ∷ ys)
    → (a ≡ a') × (b ≡ b') × (c ≡ c') × (d ≡ d')
four_bytes_injective s a b c d a' b' c' d' ys hs h h' e = omega (arith, same_word)
  where
    x : ℕ
    x = bit_xor s (word a b c d)

    x' : ℕ
    x' = bit_xor s (word a' b' c' d')

    hx : IsWord x
    hx = bit_xor-lt 32 hs (omega arith)

    hx' : IsWord x'
    hx' = bit_xor-lt 32 hs (omega arith)

    burst : List ℕ
    burst = a ∷ b ∷ c ∷ d ∷ []

    burst' : List ℕ
    burst' = a' ∷ b' ∷ c' ∷ d' ∷ []

    same_register : crc_register s burst ≡ crc_register s burst'
    same_register =
        crc_register_injective (crc_register s burst) (crc_register s burst') ys
          (crc_register-lt s burst hs (h.0, (h.1.0, (h.1.1.0, (h.1.1.1.0, tt)))))
          (crc_register-lt s burst' hs (h'.0, (h'.1.0, (h'.1.1.0, (h'.1.1.1.0, tt))))) h.1.1.1.1
          (sym (crc_register-append s burst ys) ∙ e ∙ crc_register-append s burst' ys)

    same_shifts :
        crc_shifts 8 (crc_shifts 8 (crc_shifts 8 (crc_shifts 8 x)))
        ≡ crc_shifts 8 (crc_shifts 8 (crc_shifts 8 (crc_shifts 8 x')))
    same_shifts =
        sym (four_bytes s a b c d hs h.0 h.1.0 h.1.1.0 h.1.1.1.0)
        ∙ same_register
        ∙ four_bytes s a' b' c' d' hs h'.0 h'.1.0 h'.1.1.0 h'.1.1.1.0

    same_word : word a b c d ≡ word a' b' c' d'
    same_word = bit_xor_injective_left s _ _ (crc_shifts_four_injective x x' hx hx' same_shifts)

-- Error detection: two messages of bytes that differ only within four consecutive bytes, and have
-- the same CRC, are the same message.
pub crc32_get_crc_detects_burst :
    (xs ys : List ℕ) (a b c d a' b' c' d' : ℕ)
    → All IsByte (xs ++ a ∷ b ∷ c ∷ d ∷ ys)
    → All IsByte (xs ++ a' ∷ b' ∷ c' ∷ d' ∷ ys)
    → crc32_get_crc (xs ++ a ∷ b ∷ c ∷ d ∷ ys) (length (xs ++ a ∷ b ∷ c ∷ d ∷ ys))
      ≡ crc32_get_crc (xs ++ a' ∷ b' ∷ c' ∷ d' ∷ ys) (length (xs ++ a' ∷ b' ∷ c' ∷ d' ∷ ys))
    → (a ≡ a') × (b ≡ b') × (c ≡ c') × (d ≡ d')
crc32_get_crc_detects_burst xs ys a b c d a' b' c' d' bytes bytes' e =
    four_bytes_injective (crc_register 0xffffffff xs) a b c d a' b' c' d' ys
      (crc_register-lt 0xffffffff xs (omega arith) split.0) split.1 split'.1
      (sym (crc_register-append 0xffffffff xs (a ∷ b ∷ c ∷ d ∷ ys))
        ∙ same_register
        ∙ crc_register-append 0xffffffff xs (a' ∷ b' ∷ c' ∷ d' ∷ ys))
  where
    message : List ℕ
    message = xs ++ a ∷ b ∷ c ∷ d ∷ ys

    message' : List ℕ
    message' = xs ++ a' ∷ b' ∷ c' ∷ d' ∷ ys

    split : All IsByte xs × All IsByte (a ∷ b ∷ c ∷ d ∷ ys)
    split = (All-append_iff IsByte xs (a ∷ b ∷ c ∷ d ∷ ys)).0 bytes

    split' : All IsByte xs × All IsByte (a' ∷ b' ∷ c' ∷ d' ∷ ys)
    split' = (All-append_iff IsByte xs (a' ∷ b' ∷ c' ∷ d' ∷ ys)).0 bytes'

    same_crc :
        some (not32 (crc_register 0xffffffff message))
        ≡ some (not32 (crc_register 0xffffffff message'))
    same_crc =
        sym (crc32_get_crc-register message bytes) ∙ e ∙ crc32_get_crc-register message' bytes'

    same_register : crc_register 0xffffffff message ≡ crc_register 0xffffffff message'
    same_register = ground (
      arith,
      same_crc,
      crc_register-lt 0xffffffff message (omega arith) bytes,
      crc_register-lt 0xffffffff message' (omega arith) bytes',
    )
