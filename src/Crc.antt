-- ===== src/Crc.antt =====
-- src/crc32.c: the CRC over a byte array in one call, and the same in steps.
pub mod Table
pub mod Shift
pub mod Stream
pub mod Injective
pub mod Detect
use dspc8681_linux_driver.Base.{
  ℕ, zero, suc, ◌+◌, u8, u32, shl, shr, not32, bit_xor, List, get_or, Option, none, some, get_elem?,
}
use Table.{crc32_table}

-- `crc32Table[byte]`; an `unsigned char` index is below 256, the length of the table.
pub table_entry : ℕ → ℕ
unfolding crc32_table
table_entry byte = get_or crc32_table byte 0

-- One round of the loop of `crc32_getCrc`.
pub crc_round : ℕ → ℕ → ℕ
unfolding table_entry
crc_round crc_state c =
    let byte = u8 (bit_xor (shr crc_state 24) c) in
    bit_xor (table_entry byte) (u32 (shl crc_state 8))

-- The loop at `offset`, with `left` rounds to go; `none` is a read past the end of the array.
pub crc_loop : List ℕ → ℕ → ℕ → ℕ → Option ℕ
unfolding crc_round
crc_loop src zero offset crc_state = some crc_state
crc_loop src (suc left) offset crc_state = elim (get_elem? src offset) [
  | none ↦ none
  | some c ↦ crc_loop src left (offset + 1) (crc_round crc_state c)
]

-- `crc32_getCrc`: the word stored to `*pCrcVal`.
unfoldable pub crc32_get_crc : List ℕ → ℕ → Option ℕ
unfolding crc_loop
crc32_get_crc src src_length = elim (crc_loop src src_length 0 0xFFFFFFFF) [
  | none ↦ none
  | some crc_state ↦ some (not32 crc_state)
]

-- `crc32_initCrc`, `crc32_updataCrc` and `crc32_finalCrc` on the word behind the pointer.
pub crc32_init_crc : ℕ
crc32_init_crc = 0xffffffff

pub crc32_updata_crc : ℕ → ℕ → ℕ
crc32_updata_crc crc_val c =
    let byte = u8 (bit_xor (shr crc_val 24) c) in bit_xor (u32 (shl crc_val 8)) (table_entry byte)

pub crc32_final_crc : ℕ → ℕ
crc32_final_crc crc_val = not32 crc_val
