-- ===== src/Crc/Injective.antt =====
-- Different registers stay different: no step of the CRC maps two of them to one.
use dspc8681_linux_driver.Base.{
  ℕ, zero, suc, ◌/◌, ◌%◌, ◌^◌, ◌≡◌, sym, ap, ◌∙◌, arith, leb, Bool-cases, inl, inr, List, [], ◌∷◌,
  All, u32, shl, bit_xor, IsByte, IsWord,
}
use dspc8681_linux_driver.Base.Bits.{bit_xor_comm, bit_xor-lt, bit_xor_injective_left, bit_xor-mod}
use dspc8681_linux_driver.Crc.Shift.{
  polynomial, feedback, crc_shift, crc_shifts, crc_byte, crc_byte-lt, crc_shift-lt, crc_shifts-lt,
}
use dspc8681_linux_driver.Crc.Stream.{crc_register}

-- The polynomial is odd: the last bit of the register tells what fell out of it.
crc_shift-parity : (s : ℕ) → IsWord s → crc_shift s % 2 ≡ s / 2 ^ 31
unfolding crc_shift
crc_shift-parity s h = elim (Bool-cases (leb (2 ^ 31) s)) [
  | inl up ↦ rw (up, bit_xor-mod 1 (u32 (shl s 1)) polynomial, even) (ground arith)
  | inr down ↦ rw (down, bit_xor-mod 1 (u32 (shl s 1)) 0, even) (ground arith)
]
  where
    even : u32 (shl s 1) % 2 ≡ 0
    even = omega arith

crc_shift_injective : (s t : ℕ) → IsWord s → IsWord t → crc_shift s ≡ crc_shift t → s ≡ t
unfolding crc_shift
crc_shift_injective s t hs ht e = omega (arith, tops, shifted)
  where
    tops : s / 2 ^ 31 ≡ t / 2 ^ 31
    tops = sym (crc_shift-parity s hs) ∙ ap (λ x. x % 2) e ∙ crc_shift-parity t ht

    same_feedback : feedback s ≡ feedback t
    same_feedback = ground (arith, tops)

    shifted : u32 (shl s 1) ≡ u32 (shl t 1)
    shifted = bit_xor_injective_left (feedback s) (u32 (shl s 1)) (u32 (shl t 1)) (
        bit_xor_comm _ _
        ∙ e
        ∙ bit_xor_comm _ _
        ∙ ap (λ x. bit_xor x (u32 (shl t 1))) (sym same_feedback))

-- No two registers are mapped to one by any number of steps.
crc_shifts_injective : (n s t : ℕ) → IsWord s → IsWord t → crc_shifts n s ≡ crc_shifts n t → s ≡ t
unfolding crc_shifts
crc_shifts_injective zero s t hs ht e = e
crc_shifts_injective (suc n) s t hs ht e =
    crc_shift_injective s t hs ht
      (crc_shifts_injective n (crc_shift s) (crc_shift t) (crc_shift-lt s) (crc_shift-lt t) e)

pub crc_shifts_four_injective :
    (s t : ℕ)
    → IsWord s
    → IsWord t
    → crc_shifts 8 (crc_shifts 8 (crc_shifts 8 (crc_shifts 8 s)))
      ≡ crc_shifts 8 (crc_shifts 8 (crc_shifts 8 (crc_shifts 8 t)))
    → s ≡ t
crc_shifts_four_injective s t hs ht e =
    let lt1 = λ (x : ℕ) (h : IsWord x). crc_shifts-lt 8 h in
    let lt2 = λ (x : ℕ) (h : IsWord x). crc_shifts-lt 8 (lt1 x h) in
    let lt3 = λ (x : ℕ) (h : IsWord x). crc_shifts-lt 8 (lt2 x h) in
    crc_shifts_injective 8 s t hs ht (
      crc_shifts_injective 8 _ _ (lt1 s hs) (lt1 t ht) (
        crc_shifts_injective 8 _ _ (lt2 s hs) (lt2 t ht)
          (crc_shifts_injective 8 _ _ (lt3 s hs) (lt3 t ht) e)))

crc_byte_injective :
    (s t x : ℕ) → IsWord s → IsWord t → IsByte x → crc_byte s x ≡ crc_byte t x → s ≡ t
unfolding crc_byte
crc_byte_injective s t x hs ht hx e =
    bit_xor_injective_left (shl x 24) s t (bit_xor_comm _ _ ∙ entered ∙ bit_xor_comm _ _)
  where
    entered : bit_xor s (shl x 24) ≡ bit_xor t (shl x 24)
    entered =
        crc_shifts_injective 8 (bit_xor s (shl x 24)) (bit_xor t (shl x 24))
          (bit_xor-lt 32 hs (omega arith)) (bit_xor-lt 32 ht (omega arith)) e

pub crc_register_injective :
    (s t : ℕ) (xs : List ℕ)
    → IsWord s
    → IsWord t
    → All IsByte xs
    → crc_register s xs ≡ crc_register t xs
    → s ≡ t
unfolding crc_register
crc_register_injective s t [] hs ht bytes e = e
crc_register_injective s t (x ∷ xs) hs ht (hx, rest) e = crc_byte_injective s t x hs ht hx (
    crc_register_injective (crc_byte s x) (crc_byte t x) xs (crc_byte-lt s x hs hx)
      (crc_byte-lt t x ht hx) rest e)
