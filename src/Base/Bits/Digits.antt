-- ===== src/Base/Bits/Digits.antt =====
-- Laws of the bit operations at variables, from the digit recursion that they stand for: the
-- lowest digit, then division and remainder by a power of two.
use Prim.Native.Nat.{ℕ, zero, suc, ◌+◌, ◌*◌, ◌/◌, ◌%◌, ◌^◌, ◌≤◌, ◌<◌, min, max}
use Prim.Native.Nat.{bit_and, bit_or, bit_xor, digits, bitwise, differ}
use Prim.Native.Nat.{bit_and-bitwise, bit_or-bitwise, bit_xor-bitwise}
use mathlib.Core.Path.{◌≡◌, refl, sym, ◌∙◌, ap, ◌≡⟨◌⟩◌, ◌∎}
use native.Mathlib.Nat.{div-div-eq-div-mul, pow-suc, one-le-pow, mod-lt, div-add-mod, mul_comm}
use native.Mathlib.Nat.{div-one, mod-one, mul-add-mod_self_right, mod-eq_of_lt}
use native.Mathlib.Omega.{arith}

-- The result of `digits` on fuel does not depend on the fuel, once it covers the first number.
module _ (rest : ℕ → ℕ) (f : ℕ → ℕ → ℕ) where
  digits_enough : (n m a b : ℕ) → a ≤ n → a ≤ m → digits rest f n a b ≡ digits rest f m a b
  digits_enough zero zero zero b p q = refl
  digits_enough zero zero (suc a) b p q = refl
  digits_enough zero (suc m) zero b p q = refl
  digits_enough zero (suc m) (suc a) b p q = elim p [ ]
  digits_enough (suc n) zero zero b p q = refl
  digits_enough (suc n) zero (suc a) b p q = elim q [ ]
  digits_enough (suc n) (suc m) zero b p q = refl
  digits_enough (suc n) (suc m) (suc a) b p q =
      omega (arith, digits_enough n m (suc a / 2) (b / 2) (omega arith) (omega arith))

  bitwise-digit :
      (a b : ℕ)
      → bitwise rest f (suc a) b ≡ bitwise rest f (suc a / 2) (b / 2) * 2 + f (suc a % 2) (b % 2)
  bitwise-digit a b =
      omega (arith, digits_enough a (suc a / 2) (suc a / 2) (b / 2) (omega arith) (omega arith))

pub bit_and-digit : (a b : ℕ) → bit_and a b ≡ bit_and (a / 2) (b / 2) * 2 + min (a % 2) (b % 2)
bit_and-digit zero b = omega (arith, bit_and-bitwise 0 b, bit_and-bitwise 0 (b / 2))
bit_and-digit (suc a) b = simp bit_and-bitwise (bitwise-digit (λ y. 0) min a b)

pub bit_or-digit : (a b : ℕ) → bit_or a b ≡ bit_or (a / 2) (b / 2) * 2 + max (a % 2) (b % 2)
bit_or-digit zero b = omega (arith, bit_or-bitwise 0 b, bit_or-bitwise 0 (b / 2))
bit_or-digit (suc a) b = simp bit_or-bitwise (bitwise-digit (λ y. y) max a b)

pub bit_xor-digit : (a b : ℕ) → bit_xor a b ≡ bit_xor (a / 2) (b / 2) * 2 + differ (a % 2) (b % 2)
bit_xor-digit zero b = ground (arith, bit_xor-bitwise 0 b, bit_xor-bitwise 0 (b / 2))
bit_xor-digit (suc a) b = simp bit_xor-bitwise (bitwise-digit (λ y. y) differ a b)

-- An operation that works digit by digit.
pub record Digitwise (op f : ℕ → ℕ → ℕ) : Type 0 where
  pub digit : (a b : ℕ) → op a b ≡ op (a / 2) (b / 2) * 2 + f (a % 2) (b % 2)
  pub bit : (a b : ℕ) → a < 2 → b < 2 → f a b < 2
  pub none_set : op 0 0 ≡ 0

differ-lt : (a b : ℕ) → a < 2 → b < 2 → differ a b < 2
differ-lt zero b p q = q
differ-lt (suc zero) zero p q = omega arith
differ-lt (suc zero) (suc zero) p q = omega arith
differ-lt (suc zero) (suc (suc b)) p q = absurd (omega arith)
differ-lt (suc (suc a)) b p q = absurd (omega arith)

pub and_Digitwise : Digitwise bit_and min
and_Digitwise = record { digit = bit_and-digit; bit = λ a b p q. omega arith; none_set = refl }

pub or_Digitwise : Digitwise bit_or max
or_Digitwise = record { digit = bit_or-digit; bit = λ a b p q. omega arith; none_set = refl }

pub xor-Digitwise : Digitwise bit_xor differ
xor-Digitwise = record { digit = bit_xor-digit; bit = differ-lt; none_set = refl }

-- Division and remainder by `2 ^ (k + 1)`, one digit at a time.
div-two-pow-suc : (k a : ℕ) → a / 2 ^ suc k ≡ a / 2 / 2 ^ k
div-two-pow-suc k a = rw (pow-suc 2 k, mul_comm (2 ^ k) 2) (sym (div-div-eq-div-mul a 2 (2 ^ k)))

mod_double : (p a : ℕ) → 0 < p → a % (p * 2) ≡ a / 2 % p * 2 + a % 2
mod_double p a h =
    a % (p * 2)
    ≡⟨ ap (λ t. t % (p * 2)) split ⟩ (a / 2 / p * (p * 2) + (a / 2 % p * 2 + a % 2)) % (p * 2)
    ≡⟨ mul-add-mod_self_right (a / 2 / p) (p * 2) _ ⟩ (a / 2 % p * 2 + a % 2) % (p * 2)
    ≡⟨ mod-eq_of_lt (omega (arith, mod-lt (a / 2) h)) ⟩ a / 2 % p * 2 + a % 2 ∎
  where
    split : a ≡ a / 2 / p * (p * 2) + (a / 2 % p * 2 + a % 2)
    split = omega (arith, div-add-mod (a / 2) p)

pub mod-two-pow-suc : (k a : ℕ) → a % 2 ^ suc k ≡ a / 2 % 2 ^ k * 2 + a % 2
mod-two-pow-suc k a = rw (pow-suc 2 k) (mod_double (2 ^ k) a (one-le-pow k 2 (omega arith)))

half-mod : (k a : ℕ) → a % 2 ^ suc k / 2 ≡ a / 2 % 2 ^ k
half-mod k a = omega (arith, mod-two-pow-suc k a)

parity-mod : (k a : ℕ) → a % 2 ^ suc k % 2 ≡ a % 2
parity-mod k a = omega (arith, mod-two-pow-suc k a)

module _ {op f : ℕ → ℕ → ℕ} (w : Digitwise op f) where
  open w use {digit, bit, none_set}

  pub op-half : (a b : ℕ) → op a b / 2 ≡ op (a / 2) (b / 2)
  op-half a b = omega (arith, digit a b, bit (a % 2) (b % 2) (omega arith) (omega arith))

  pub op-parity : (a b : ℕ) → op a b % 2 ≡ f (a % 2) (b % 2)
  op-parity a b = omega (arith, digit a b, bit (a % 2) (b % 2) (omega arith) (omega arith))

  pub op-div : (k a b : ℕ) → op a b / 2 ^ k ≡ op (a / 2 ^ k) (b / 2 ^ k)
  op-div zero a b = rw (div-one (op a b), div-one a, div-one b)
  op-div (suc k) a b =
      rw (div-two-pow-suc k (op a b), div-two-pow-suc k a, div-two-pow-suc k b, op-half a b)
        (op-div k (a / 2) (b / 2))

  pub op-mod : (k a b : ℕ) → op a b % 2 ^ k ≡ op (a % 2 ^ k) (b % 2 ^ k)
  op-mod zero a b = rw (mod-one (op a b), mod-one a, mod-one b) (sym none_set)
  op-mod (suc k) a b =
      rw (mod-two-pow-suc k (op a b), op-half a b, op-parity a b, op-mod k (a / 2) (b / 2))
        (sym (digit (a % 2 ^ suc k) (b % 2 ^ suc k) ∙ low))
    where
      low :
          op (a % 2 ^ suc k / 2) (b % 2 ^ suc k / 2) * 2 + f (a % 2 ^ suc k % 2) (b % 2 ^ suc k % 2)
          ≡ op (a / 2 % 2 ^ k) (b / 2 % 2 ^ k) * 2 + f (a % 2) (b % 2)
      low = rw (half-mod k a, half-mod k b, parity-mod k a, parity-mod k b)
