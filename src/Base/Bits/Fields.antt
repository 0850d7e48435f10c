-- ===== src/Base/Bits/Fields.antt =====
-- `|` and `^` of disjoint fields are sums, and `&` with a mask is a remainder or a multiple.
use Prim.Native.Nat.{ℕ, zero, suc, ◌+◌, ◌-◌, ◌*◌, ◌/◌, ◌%◌, ◌^◌, ◌≤◌, ◌<◌}
use Prim.Native.Nat.{bit_and, bit_or, bit_xor, bit_or-bitwise, bit_xor-bitwise, differ}
use mathlib.Core.Path.{◌≡◌, refl}
use native.Mathlib.Nat.{
  pow-suc, one-le-pow, div-add-mod', mul-div_cancel, mul-mod_left, div-eq_of_lt, mod-eq_of_lt,
}
use native.Mathlib.Omega.{arith}
use dspc8681_linux_driver.Base.Bits.Digits.{
  Digitwise, bit_and-digit, bit_or-digit, bit_xor-digit, and_Digitwise, or_Digitwise, xor-Digitwise,
  op-div, op-mod, mod-two-pow-suc,
}

bit_or-zero_fuel : (n a : ℕ) → a ≤ n → bit_or a 0 ≡ a
bit_or-zero_fuel n zero h = refl
bit_or-zero_fuel zero (suc a) h = elim h [ ]
bit_or-zero_fuel (suc n) (suc a) h =
    omega (arith, bit_or-digit (suc a) 0, bit_or-zero_fuel n (suc a / 2) (omega arith))

pub bit_or-zero : (a : ℕ) → bit_or a 0 ≡ a
bit_or-zero a = bit_or-zero_fuel a a (omega arith)

pub zero-bit_or : (a : ℕ) → bit_or 0 a ≡ a
zero-bit_or a = bit_or-bitwise 0 a

differ-bit : (a : ℕ) → a < 2 → differ a 0 ≡ a
differ-bit zero h = refl
differ-bit (suc a) h = refl

bit_xor-zero_fuel : (n a : ℕ) → a ≤ n → bit_xor a 0 ≡ a
bit_xor-zero_fuel n zero h = refl
bit_xor-zero_fuel zero (suc a) h = elim h [ ]
bit_xor-zero_fuel (suc n) (suc a) h = omega (
  arith,
  bit_xor-digit (suc a) 0,
  differ-bit (suc a % 2) (omega arith),
  bit_xor-zero_fuel n (suc a / 2) (omega arith),
)

pub bit_xor-zero : (a : ℕ) → bit_xor a 0 ≡ a
bit_xor-zero a = bit_xor-zero_fuel a a (omega arith)

pub zero-bit_xor : (a : ℕ) → bit_xor 0 a ≡ a
zero-bit_xor a = bit_xor-bitwise 0 a

bit_and-zero_fuel : (n a : ℕ) → a ≤ n → bit_and a 0 ≡ 0
bit_and-zero_fuel n zero h = refl
bit_and-zero_fuel zero (suc a) h = elim h [ ]
bit_and-zero_fuel (suc n) (suc a) h =
    omega (arith, bit_and-digit (suc a) 0, bit_and-zero_fuel n (suc a / 2) (omega arith))

pub bit_and-zero : (a : ℕ) → bit_and a 0 ≡ 0
bit_and-zero a = bit_and-zero_fuel a a (omega arith)

-- An operation with 0 as its unit on both sides adds disjoint fields.
module _ {op f : ℕ → ℕ → ℕ} (w : Digitwise op f) (left : (a : ℕ) → op 0 a ≡ a)
    (right : (a : ℕ) → op a 0 ≡ a) where
  op_fields : (k q r : ℕ) → r < 2 ^ k → op (q * 2 ^ k) r ≡ q * 2 ^ k + r
  op_fields k q r fits = omega (arith, high, low, div-add-mod' (op (q * 2 ^ k) r) (2 ^ k))
    where
      two_pow_pos : 0 < 2 ^ k
      two_pow_pos = one-le-pow k 2 (omega arith)

      high : op (q * 2 ^ k) r / 2 ^ k * 2 ^ k ≡ q * 2 ^ k
      high = rw (op-div w k (q * 2 ^ k) r, mul-div_cancel q two_pow_pos, div-eq_of_lt fits, right q)

      low : op (q * 2 ^ k) r % 2 ^ k ≡ r
      low = rw (op-mod w k (q * 2 ^ k) r, mul-mod_left q (2 ^ k), mod-eq_of_lt fits, left r)

-- `(q << k) | r` is a sum when `r` fits `k` bits.
pub bit_or_fields : (k q r : ℕ) → r < 2 ^ k → bit_or (q * 2 ^ k) r ≡ q * 2 ^ k + r
bit_or_fields = op_fields or_Digitwise zero-bit_or bit_or-zero

pub bit_xor_fields : (k q r : ℕ) → r < 2 ^ k → bit_xor (q * 2 ^ k) r ≡ q * 2 ^ k + r
bit_xor_fields = op_fields xor-Digitwise zero-bit_xor bit_xor-zero

-- A mask of `k` low ones is the remainder by `2 ^ k`.
pub bit_and_low : (k a : ℕ) → bit_and a (2 ^ k - 1) ≡ a % 2 ^ k
bit_and_low zero a = omega (arith, bit_and-zero a)
bit_and_low (suc k) a =
    rw (bit_and-digit a (2 ^ suc k - 1), half, parity, bit_and_low k (a / 2))
      (omega (arith, mod-two-pow-suc k a))
  where
    doubled : (2 ^ suc k ≡ 2 ^ k * 2) × (0 < 2 ^ k)
    doubled = (pow-suc 2 k, one-le-pow k 2 (omega arith))

    half : (2 ^ suc k - 1) / 2 ≡ 2 ^ k - 1
    half = omega (arith, doubled)

    parity : (2 ^ suc k - 1) % 2 ≡ 1
    parity = omega (arith, doubled)

-- A mask whose `k` low bits are clear.
pub bit_and_high : (k a m : ℕ) → bit_and a (m * 2 ^ k) ≡ bit_and (a / 2 ^ k) m * 2 ^ k
bit_and_high k a m = omega (arith, high, low, div-add-mod' (bit_and a (m * 2 ^ k)) (2 ^ k))
  where
    high : bit_and a (m * 2 ^ k) / 2 ^ k * 2 ^ k ≡ bit_and (a / 2 ^ k) m * 2 ^ k
    high =
        rw (op-div and_Digitwise k a (m * 2 ^ k), mul-div_cancel m (one-le-pow k 2 (omega arith)))

    low : bit_and a (m * 2 ^ k) % 2 ^ k ≡ 0
    low = rw (op-mod and_Digitwise k a (m * 2 ^ k), mul-mod_left m (2 ^ k)) (bit_and-zero _)

-- The field of `j` bits at bit `k`, left in place.
pub bit_and_field : (j k a : ℕ) → bit_and a ((2 ^ j - 1) * 2 ^ k) ≡ a / 2 ^ k % 2 ^ j * 2 ^ k
bit_and_field j k a = rw (bit_and_high k a (2 ^ j - 1), bit_and_low j (a / 2 ^ k))
