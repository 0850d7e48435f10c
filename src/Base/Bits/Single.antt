-- ===== src/Base/Bits/Single.antt =====
-- One bit of `&` and of `|`.
use Prim.Native.Nat.{ℕ, ◌/◌, ◌%◌, ◌^◌, min, max, bit_and, bit_or}
use mathlib.Core.Path.{◌≡◌}
use native.Mathlib.Omega.{arith}
use dspc8681_linux_driver.Base.Bits.Digits.{
  bit_and-digit, bit_or-digit, and_Digitwise, or_Digitwise, op-div,
}

abbrev pub bit : ℕ → ℕ → ℕ
bit a k = a / 2 ^ k % 2

pub bit-bit_and : (a b k : ℕ) → bit (bit_and a b) k ≡ min (bit a k) (bit b k)
bit-bit_and a b k =
    rw (op-div and_Digitwise k a b) (omega (arith, bit_and-digit (a / 2 ^ k) (b / 2 ^ k)))

pub bit-bit_or : (a b k : ℕ) → bit (bit_or a b) k ≡ max (bit a k) (bit b k)
bit-bit_or a b k =
    rw (op-div or_Digitwise k a b) (omega (arith, bit_or-digit (a / 2 ^ k) (b / 2 ^ k)))
