-- ===== src/Crc/Shift.antt =====
-- The textbook CRC: a 32-bit register that shifts one bit at a time and subtracts the polynomial
-- 0x04c11db7 when a one falls out. `crc_round` of src/crc32.c is eight of its steps.
use dspc8681_linux_driver.Base.{
  ℕ, zero, suc, ◌*◌, ◌/◌, ◌%◌, ◌^◌, ◌≤◌, ◌<◌, ◌≡◌, refl, sym, ap, ◌∙◌, arith, leb, ◌==◌, ==_iff,
  if◌then◌else◌, true, Bool-cases, inl, inr, all_below, all_below_sound, u32, shl, shr, bit_xor,
  IsByte, IsWord,
}
use dspc8681_linux_driver.Base.Bits.{
  bit_xor-div, bit_xor-mod, bit_xor-mul, bit_xor-lt, bit_xor_fields, bit_xor_comm, bit_xor_assoc,
  bit_xor-zero,
}
use native.Mathlib.Nat.{
  pow-suc, one-le-pow, mul-le-mul_left, div-add-mod', mul-div_cancel, mul-mod_left, mod-eq_of_lt,
}
use dspc8681_linux_driver.Crc.{table_entry, crc_round}

abbrev pub polynomial : ℕ
polynomial = 0x04c11db7

-- What is subtracted after a shift.
abbrev pub feedback : ℕ → ℕ
feedback s = if leb (2 ^ 31) s then polynomial else 0

unfoldable pub crc_shift : ℕ → ℕ
crc_shift s = bit_xor (u32 (shl s 1)) (feedback s)

unfoldable pub crc_shifts : ℕ → ℕ → ℕ
crc_shifts zero s = s
crc_shifts (suc n) s = crc_shifts n (crc_shift s)

-- A byte enters at the top of the register, and eight shifts follow.
unfoldable pub crc_byte : ℕ → ℕ → ℕ
crc_byte s c = crc_shifts 8 (bit_xor s (shl c 24))

pub crc_shift-lt : (s : ℕ) → crc_shift s < 2 ^ 32
unfolding crc_shift
crc_shift-lt s = bit_xor-lt 32 (omega arith) (ground arith)

pub crc_shifts-lt : (n : ℕ) {s : ℕ} → IsWord s → crc_shifts n s < 2 ^ 32
unfolding crc_shifts
crc_shifts-lt zero h = h
crc_shifts-lt (suc n) {s} h = crc_shifts-lt n (crc_shift-lt s)

pub crc_byte-lt : (s c : ℕ) → IsWord s → IsByte c → IsWord (crc_byte s c)
unfolding crc_byte
crc_byte-lt s c hs hc = crc_shifts-lt 8 (bit_xor-lt 32 hs (omega arith))

-- The feedback as a function of the top bit, on words.
feedback_bit : ℕ → ℕ
feedback_bit zero = 0
feedback_bit (suc n) = polynomial

feedback-top : {s : ℕ} → IsWord s → feedback s ≡ feedback_bit (s / 2 ^ 31)
feedback-top {s} h = elim (Bool-cases (leb (2 ^ 31) s)) [
  | inl up ↦ let top : s / 2 ^ 31 ≡ 1 = ground arith in rw (up, top) (unfold feedback_bit in refl)
  | inr down ↦
      let top : s / 2 ^ 31 ≡ 0 = ground arith in rw (down, top) (unfold feedback_bit in refl)
]

feedback_bit-xor :
    (a b : ℕ)
    → a < 2
    → b < 2
    → feedback_bit (bit_xor a b) ≡ bit_xor (feedback_bit a) (feedback_bit b)
unfolding feedback_bit
feedback_bit-xor zero zero p q = refl
feedback_bit-xor zero (suc zero) p q = refl
feedback_bit-xor zero (suc (suc b)) p q = absurd (omega arith)
feedback_bit-xor (suc zero) zero p q = refl
feedback_bit-xor (suc zero) (suc zero) p q = refl
feedback_bit-xor (suc zero) (suc (suc b)) p q = absurd (omega arith)
feedback_bit-xor (suc (suc a)) b p q = absurd (omega arith)

feedback-xor :
    {a b : ℕ} → IsWord a → IsWord b → feedback (bit_xor a b) ≡ bit_xor (feedback a) (feedback b)
feedback-xor {a} {b} p q =
    feedback-top (bit_xor-lt 32 p q)
    ∙ rw (bit_xor-div 31 a b, feedback-top p, feedback-top q)
        (feedback_bit-xor (a / 2 ^ 31) (b / 2 ^ 31) (omega arith) (omega arith))

-- Regrouping of four terms.
xor_swap : (a b c d : ℕ) → bit_xor (bit_xor a b) (bit_xor c d) ≡ bit_xor (bit_xor a c) (bit_xor b d)
xor_swap a b c d =
    bit_xor_assoc a b (bit_xor c d)
    ∙ ap (bit_xor a)
        (sym (bit_xor_assoc b c d) ∙ ap (λ t. bit_xor t d) (bit_xor_comm b c) ∙ bit_xor_assoc c b d)
    ∙ sym (bit_xor_assoc a c (bit_xor b d))

-- The register is linear over `^`.
pub crc_shift-xor :
    {a b : ℕ} → IsWord a → IsWord b → crc_shift (bit_xor a b) ≡ bit_xor (crc_shift a) (crc_shift b)
unfolding crc_shift
crc_shift-xor {a} {b} p q =
    rw (feedback-xor p q, ← bit_xor-mul 1 a b, bit_xor-mod 32 (a * 2) (b * 2)) (xor_swap _ _ _ _)

pub crc_shifts-xor :
    (n : ℕ) {a b : ℕ}
    → IsWord a
    → IsWord b
    → crc_shifts n (bit_xor a b) ≡ bit_xor (crc_shifts n a) (crc_shifts n b)
unfolding crc_shifts
crc_shifts-xor zero p q = refl
crc_shifts-xor (suc n) {a} {b} p q =
    rw (crc_shift-xor p q) (crc_shifts-xor n (crc_shift-lt a) (crc_shift-lt b))

crc_shift_low : (s : ℕ) → s < 2 ^ 31 → crc_shift s ≡ s * 2
unfolding crc_shift
crc_shift_low s h = ground (arith, bit_xor-zero (u32 (shl s 1)))

-- While no one falls out, `n` steps are a shift by `n`.
pub crc_shifts_low : (n s : ℕ) → s * 2 ^ n < 2 ^ 32 → crc_shifts n s ≡ s * 2 ^ n
unfolding crc_shifts
crc_shifts_low zero s h = omega arith
crc_shifts_low (suc n) s h =
    rw (crc_shift_low s below)
      (crc_shifts_low n (s * 2) (omega (arith, doubled)) ∙ omega (arith, doubled))
  where
    doubled : (s * 2 ^ suc n ≡ s * 2 * 2 ^ n) × (s ≤ s * 2 ^ n)
    doubled = (
      omega (arith, ap (λ (t : ℕ). s * t) (pow-suc 2 n)),
      omega (arith, mul-le-mul_left s (one-le-pow n 2 (omega arith))),
    )

    below : s < 2 ^ 31
    below = omega (arith, doubled)

table_check : all_below 256 (λ b. table_entry b == crc_shifts 8 (shl b 24)) ≡ true
unfolding all_below table_entry crc_shifts crc_shift
table_check = refl

-- Every entry of the table is its index run through eight steps of the register.
pub table_entry-crc_shifts : (b : ℕ) → IsByte b → table_entry b ≡ crc_shifts 8 (shl b 24)
table_entry-crc_shifts b h =
    (==_iff _ _).0
      (all_below_sound 256 (λ b. table_entry b == crc_shifts 8 (shl b 24)) b table_check h)

-- A word is its top byte and the 24 bits below it.
top_and_rest :
    (s c : ℕ) → bit_xor s (shl c 24) ≡ bit_xor (shl (bit_xor (shr s 24) c) 24) (s % 2 ^ 24)
top_and_rest s c = omega (
  arith,
  div-add-mod' x (2 ^ 24),
  high,
  low,
  bit_xor_fields 24 (bit_xor (shr s 24) c) (s % 2 ^ 24) (omega arith),
)
  where
    x : ℕ
    x = bit_xor s (shl c 24)

    high : x / 2 ^ 24 ≡ bit_xor (shr s 24) c
    high = rw (bit_xor-div 24 s (shl c 24), mul-div_cancel c {n = 2 ^ 24} (omega arith))

    low : x % 2 ^ 24 ≡ s % 2 ^ 24
    low = rw (bit_xor-mod 24 s (shl c 24), mul-mod_left c (2 ^ 24)) (bit_xor-zero _)

-- A round of `crc32_getCrc` is the eight steps of the bit-by-bit register.
pub crc_round-crc_byte : (s c : ℕ) → IsWord s → IsByte c → crc_round s c ≡ crc_byte s c
unfolding crc_round crc_byte
crc_round-crc_byte s c hs hc =
    rw
      (
        top_and_rest s c,
        crc_shifts-xor 8 {a = shl byte 24} {b = s % 2 ^ 24} (omega (arith, fits)) (omega arith),
        crc_shifts_low 8 (s % 2 ^ 24) (omega arith),
        ← table_entry-crc_shifts byte fits,
        mod-eq_of_lt fits,
      )
      (ap (bit_xor (table_entry byte)) (omega arith))
  where
    byte : ℕ
    byte = bit_xor (shr s 24) c

    fits : byte < 256
    fits = bit_xor-lt 8 (omega arith) hc
