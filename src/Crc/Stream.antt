-- ===== src/Crc/Stream.antt =====
-- The one-call CRC against the stepwise one and against the bit-by-bit register.
use dspc8681_linux_driver.Base.{
  ℕ, zero, suc, ◌≡◌, refl, ◌∙◌, arith, leb, if◌then◌else◌, inl, inr, List, [], ◌∷◌, ◌++◌, Option,
  none, some, length, take, drop, take-length, get_elem?-drop, All, not32, IsByte, IsWord,
}
use dspc8681_linux_driver.Base.Bits.{bit_xor_comm}
use native.Mathlib.Numerals.{add-one}
use dspc8681_linux_driver.Crc.{
  crc_round, crc_loop, crc32_get_crc, crc32_init_crc, crc32_updata_crc, crc32_final_crc,
}
use dspc8681_linux_driver.Crc.Shift.{crc_byte, crc_round-crc_byte, crc_byte-lt}

-- `crc32_updataCrc` on each byte in turn.
pub crc_stream : ℕ → List ℕ → ℕ
crc_stream crc_val [] = crc_val
crc_stream crc_val (c ∷ cs) = crc_stream (crc32_updata_crc crc_val c) cs

pub crc_stream-append :
    (s : ℕ) (xs ys : List ℕ) → crc_stream s (xs ++ ys) ≡ crc_stream (crc_stream s xs) ys
unfolding crc_stream
crc_stream-append s [] ys = refl
crc_stream-append s (x ∷ xs) ys = crc_stream-append (crc32_updata_crc s x) xs ys

pub updata-round : (s c : ℕ) → crc32_updata_crc s c ≡ crc_round s c
unfolding crc32_updata_crc crc_round
updata-round s c = bit_xor_comm _ _

abbrev within : ℕ → List ℕ → ℕ → Option ℕ
within left rest s = if leb left (length rest) then some (crc_stream s (take left rest)) else none

crc_loop-within :
    (src : List ℕ) (left offset s : ℕ)
    → crc_loop src left offset s ≡ within left (drop offset src) s
unfolding crc_loop crc_stream
crc_loop-within src zero offset s = ground arith
crc_loop-within src (suc left) offset s = elim (get_elem?-drop src offset) [
  | inl (missing, ended) ↦ rw (missing, ended, crc_loop) (ground arith)
  | inr (c, found, rest) ↦
      rw (found, rest, add-one, crc_loop)
        (ground (arith, crc_loop-within src left (suc offset) (crc_round s c), updata-round s c))
]

-- Streaming: `crc32_getCrc` over `srcLength` bytes stores what `crc32_initCrc`, `crc32_updataCrc`
-- on each of them and `crc32_finalCrc` give, and it reads past the array exactly when
-- `srcLength` is larger than it.
pub crc32_get_crc-stream :
    (src : List ℕ) (src_length : ℕ)
    → crc32_get_crc src src_length ≡ (
        if leb src_length (length src)
        then some (crc32_final_crc (crc_stream crc32_init_crc (take src_length src)))
        else none)
unfolding crc32_get_crc crc32_final_crc crc32_init_crc
crc32_get_crc-stream src src_length =
    rw (crc_loop-within src src_length 0 0xFFFFFFFF, crc32_get_crc) (ground arith)

updata-crc_byte : (s c : ℕ) → IsWord s → IsByte c → crc32_updata_crc s c ≡ crc_byte s c
updata-crc_byte s c hs hc = updata-round s c ∙ crc_round-crc_byte s c hs hc

-- The reference: each byte enters a 32-bit register that is shifted and reduced bit by bit.
unfoldable pub crc_register : ℕ → List ℕ → ℕ
crc_register s [] = s
crc_register s (c ∷ cs) = crc_register (crc_byte s c) cs

pub crc_register-append :
    (s : ℕ) (xs ys : List ℕ) → crc_register s (xs ++ ys) ≡ crc_register (crc_register s xs) ys
unfolding crc_register
crc_register-append s [] ys = refl
crc_register-append s (x ∷ xs) ys = crc_register-append (crc_byte s x) xs ys

pub crc_register-lt : (s : ℕ) (xs : List ℕ) → IsWord s → All IsByte xs → IsWord (crc_register s xs)
unfolding crc_register
crc_register-lt s [] hs bytes = hs
crc_register-lt s (x ∷ xs) hs (hx, rest) =
    crc_register-lt (crc_byte s x) xs (crc_byte-lt s x hs hx) rest

crc_stream-register :
    (s : ℕ) (cs : List ℕ) → IsWord s → All IsByte cs → crc_stream s cs ≡ crc_register s cs
unfolding crc_stream crc_register
crc_stream-register s [] hs bytes = refl
crc_stream-register s (c ∷ cs) hs (hc, rest) =
    rw (updata-crc_byte s c hs hc)
      (crc_stream-register (crc_byte s c) cs (crc_byte-lt s c hs hc) rest)

-- Refinement: on bytes, `crc32_getCrc` computes the textbook CRC with polynomial 0x04c11db7,
-- register preset to ones and complemented at the end.
pub crc32_get_crc-register :
    (src : List ℕ)
    → All IsByte src
    → crc32_get_crc src (length src) ≡ some (not32 (crc_register 0xffffffff src))
unfolding crc32_init_crc crc32_final_crc
crc32_get_crc-register src bytes =
    crc32_get_crc-stream src (length src)
    ∙ rw (take-length src, ← crc_stream-register 0xffffffff src (omega arith) bytes) (ground arith)
