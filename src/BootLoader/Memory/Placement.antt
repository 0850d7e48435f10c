-- ===== src/BootLoader/Memory/Placement.antt =====
-- Which memory an address of the boot table denotes, described by ranges of addresses.
use dspc8681_linux_driver.Base.{
  ℕ, ◌+◌, ◌-◌, ◌*◌, ◌/◌, ◌%◌, ◌^◌, ◌<◌, ◌≡◌, refl, arith, ltb, ◌==◌, ◌||◌, if◌then◌else◌, u32,
  IsWord, Option, none, some,
}
use dspc8681_linux_driver.Base.Bits.{bit_and_low, bit_and_field}
use dspc8681_linux_driver.BootLoader.Memory.{
  Region, in_ll2, in_msmc, in_ddr, locate, ll2_start, msmc_start, ddr_start, magic_addr,
}
use dspc8681_linux_driver.BootLoader.Upload.{new_core_num}

-- Local addresses 0x00xxxxxx and global ones 0x1nxxxxxx are L2 memory, 0x0Cxxxxxx is shared memory
-- and everything from 0x80000000 on is DDR.
unfoldable pub placement : ℕ → Option (Region × ℕ)
placement a =
    if a / 2 ^ 24 == 0 || a / 2 ^ 28 == 1
    then (if ltb (a % 2 ^ 24) ll2_start then none else some (in_ll2, (a % 2 ^ 24 - ll2_start) / 4))
    else (if a / 2 ^ 24 == 0x0C
        then some (in_msmc, (a - msmc_start) / 4)
        else (if ltb a ddr_start then none else some (in_ddr, (a - ddr_start) / 4)))

-- Routing: for every core number, the tests of `uploadProgram` and the `switch` of
-- `writeDSPMemory` together send a 32-bit address to its place by ranges of addresses.
pub locate-new_core_num :
    (core_num a : ℕ) → IsWord a → locate (new_core_num core_num a) a ≡ placement a
unfolding locate new_core_num placement
locate-new_core_num core_num a h = ground (arith, bit_and_low 24 a, bit_and_field 8 24 a)

-- How many words of a region have an address: up to the end of its 24 or 32 bits.
abbrev pub limit : Region → ℕ
limit in_ll2 = (2 ^ 24 - ll2_start) / 4
limit in_msmc = (2 ^ 32 - msmc_start) / 4
limit in_ddr = (2 ^ 32 - ddr_start) / 4

-- Inside a region, `4 * n` bytes further on is `n` words further on.
pub locate-add :
    (core_num a index n : ℕ) (region : Region)
    → IsWord a
    → locate core_num a ≡ some (region, index)
    → index + n < limit region
    → locate core_num (u32 (a + 4 * n)) ≡ some (region, index + n)
unfolding locate
locate-add core_num a index n in_ll2 h e fits =
    ground (arith, bit_and_low 24 a, bit_and_low 24 (u32 (a + 4 * n)))
locate-add core_num a index n in_msmc h e fits = ground arith
locate-add core_num a index n in_ddr h e fits = ground arith

-- The word of L2 memory at `MAGIC_ADDR`.
abbrev pub magic_index : ℕ
magic_index = 0x1FFFF

pub locate_magic : locate 0 magic_addr ≡ some (in_ll2, magic_index)
unfolding locate
locate_magic = refl
