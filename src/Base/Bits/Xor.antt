-- ===== src/Base/Bits/Xor.antt =====
-- `^` is an abelian group operation in which every number is its own inverse, and it goes
-- through shifts and casts.
use Prim.Native.Nat.{ℕ, zero, suc, ◌+◌, ◌*◌, ◌/◌, ◌%◌, ◌^◌, ◌≤◌, ◌<◌, bit_xor, differ}
use mathlib.Core.Path.{◌≡◌, refl, sym, ◌∙◌, ap}
use native.Mathlib.Nat.{
  one-le-pow, mod-lt, mod-eq_of_lt, mul-div_cancel, mul-mod_left, div-add-mod',
}
use native.Mathlib.Omega.{arith}
use dspc8681_linux_driver.Base.Bits.Digits.{
  xor-Digitwise, bit_xor-digit, op-half, op-parity, op-div, op-mod,
}
use dspc8681_linux_driver.Base.Bits.Fields.{zero-bit_xor}

pub bit_xor-div : (k a b : ℕ) → bit_xor a b / 2 ^ k ≡ bit_xor (a / 2 ^ k) (b / 2 ^ k)
bit_xor-div = op-div xor-Digitwise

pub bit_xor-mod : (k a b : ℕ) → bit_xor a b % 2 ^ k ≡ bit_xor (a % 2 ^ k) (b % 2 ^ k)
bit_xor-mod = op-mod xor-Digitwise

pub bit_xor-lt : (k : ℕ) {a b : ℕ} → a < 2 ^ k → b < 2 ^ k → bit_xor a b < 2 ^ k
bit_xor-lt k {a} {b} p q =
    rw (← mod-eq_of_lt p, ← mod-eq_of_lt q, ← bit_xor-mod k a b)
      (mod-lt (bit_xor a b) (one-le-pow k 2 (omega arith)))

differ_comm : (a b : ℕ) → differ a b ≡ differ b a
differ_comm zero zero = refl
differ_comm zero (suc b) = refl
differ_comm (suc a) zero = refl
differ_comm (suc a) (suc b) = differ_comm a b

differ_self : (a : ℕ) → differ a a ≡ 0
differ_self zero = refl
differ_self (suc a) = differ_self a

differ_assoc : (a b c : ℕ) → a < 2 → b < 2 → c < 2 → differ (differ a b) c ≡ differ a (differ b c)
differ_assoc zero b c p q r = refl
differ_assoc (suc zero) zero c p q r = refl
differ_assoc (suc zero) (suc zero) zero p q r = refl
differ_assoc (suc zero) (suc zero) (suc zero) p q r = refl
differ_assoc (suc zero) (suc zero) (suc (suc c)) p q r = absurd (omega arith)
differ_assoc (suc zero) (suc (suc b)) c p q r = absurd (omega arith)
differ_assoc (suc (suc a)) b c p q r = absurd (omega arith)

comm_fuel : (n a b : ℕ) → a ≤ n → b ≤ n → bit_xor a b ≡ bit_xor b a
comm_fuel zero zero zero p q = refl
comm_fuel zero zero (suc b) p q = elim q [ ]
comm_fuel zero (suc a) b p q = elim p [ ]
comm_fuel (suc n) a b p q = omega (
  arith,
  bit_xor-digit a b,
  bit_xor-digit b a,
  differ_comm (a % 2) (b % 2),
  comm_fuel n (a / 2) (b / 2) (omega arith) (omega arith),
)

pub bit_xor_comm : (a b : ℕ) → bit_xor a b ≡ bit_xor b a
bit_xor_comm a b = comm_fuel (a + b) a b (omega arith) (omega arith)

self_fuel : (n a : ℕ) → a ≤ n → bit_xor a a ≡ 0
self_fuel n zero p = refl
self_fuel zero (suc a) p = elim p [ ]
self_fuel (suc n) (suc a) p = omega (
  arith,
  bit_xor-digit (suc a) (suc a),
  differ_self (suc a % 2),
  self_fuel n (suc a / 2) (omega arith),
)

pub bit_xor_self : (a : ℕ) → bit_xor a a ≡ 0
bit_xor_self a = self_fuel a a (omega arith)

assoc_fuel :
    (n a b c : ℕ) → a ≤ n → b ≤ n → c ≤ n → bit_xor (bit_xor a b) c ≡ bit_xor a (bit_xor b c)
assoc_fuel zero zero zero zero p q r = refl
assoc_fuel zero zero zero (suc c) p q r = elim r [ ]
assoc_fuel zero zero (suc b) c p q r = elim q [ ]
assoc_fuel zero (suc a) b c p q r = elim p [ ]
assoc_fuel (suc n) a b c p q r =
    bit_xor-digit (bit_xor a b) c
    ∙ rw
        (
          op-half xor-Digitwise a b,
          op-parity xor-Digitwise a b,
          differ_assoc (a % 2) (b % 2) (c % 2) (omega arith) (omega arith) (omega arith),
          assoc_fuel n (a / 2) (b / 2) (c / 2) (omega arith) (omega arith) (omega arith),
        )
        right
  where
    right :
        bit_xor (a / 2) (bit_xor (b / 2) (c / 2)) * 2 + differ (a % 2) (differ (b % 2) (c % 2))
        ≡ bit_xor a (bit_xor b c)
    right =
        rw (← op-half xor-Digitwise b c, ← op-parity xor-Digitwise b c)
          (sym (bit_xor-digit a (bit_xor b c)))

pub bit_xor_assoc : (a b c : ℕ) → bit_xor (bit_xor a b) c ≡ bit_xor a (bit_xor b c)
bit_xor_assoc a b c = assoc_fuel (a + b + c) a b c (omega arith) (omega arith) (omega arith)

pub bit_xor_cancel_left : (a b : ℕ) → bit_xor a (bit_xor a b) ≡ b
bit_xor_cancel_left a b =
    sym (bit_xor_assoc a a b) ∙ ap (λ t. bit_xor t b) (bit_xor_self a) ∙ zero-bit_xor b

pub bit_xor_injective_left : (a b c : ℕ) → bit_xor a b ≡ bit_xor a c → b ≡ c
bit_xor_injective_left a b c e =
    sym (bit_xor_cancel_left a b) ∙ ap (bit_xor a) e ∙ bit_xor_cancel_left a c

-- Shifting left by `k` bits goes through `^`.
pub bit_xor-mul : (k a b : ℕ) → bit_xor (a * 2 ^ k) (b * 2 ^ k) ≡ bit_xor a b * 2 ^ k
bit_xor-mul k a b = omega (arith, high, low, div-add-mod' (bit_xor (a * 2 ^ k) (b * 2 ^ k)) (2 ^ k))
  where
    two_pow_pos : 0 < 2 ^ k
    two_pow_pos = one-le-pow k 2 (omega arith)

    high : bit_xor (a * 2 ^ k) (b * 2 ^ k) / 2 ^ k * 2 ^ k ≡ bit_xor a b * 2 ^ k
    high = rw (
      bit_xor-div k (a * 2 ^ k) (b * 2 ^ k),
      mul-div_cancel a two_pow_pos,
      mul-div_cancel b two_pow_pos,
    )

    low : bit_xor (a * 2 ^ k) (b * 2 ^ k) % 2 ^ k ≡ 0
    low = rw (bit_xor-mod k (a * 2 ^ k) (b * 2 ^ k), mul-mod_left a (2 ^ k), mul-mod_left b (2 ^ k))
