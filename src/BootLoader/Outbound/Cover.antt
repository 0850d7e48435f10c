-- ===== src/BootLoader/Outbound/Cover.antt =====
-- Which part of the host's memory the outbound window shows.
use dspc8681_linux_driver.Base.{
  ℕ, ◌+◌, ◌*◌, ◌/◌, ◌%◌, ◌^◌, ◌≤◌, ◌<◌, ◌≡◌, refl, ap, arith, bit_and, bit_or, pos, IsWord, [], ◌∷◌,
  some,
}
use native.Mathlib.Decide.{dec_le}
use native.Mathlib.Nat.{div-add-mod', mod-lt, mul-mod_left, mul_assoc, one-le-pow}
use dspc8681_linux_driver.Base.Bits.{bit_and_field, bit_or_fields}
use dspc8681_linux_driver.Registers.{iowrite32, written, ob_size, ob_offset_index, ob_offset_hi}
use dspc8681_linux_driver.BootLoader.Outbound.{ob_window, dsp_memory_map}

-- The window that the registers of outbound region 0 describe: 2 ^ n megabytes from `base`, enabled.
pub record Window (pc_addr size : ℕ) : Type 0 where
  pub log_size : ℕ
  pub base : ℕ
  pub ob_size_written : written (dsp_memory_map pc_addr size).0 ob_size ≡ some log_size
  pub index_written : written (dsp_memory_map pc_addr size).0 (ob_offset_index 0) ≡ some (base + 1)
  pub hi_written : written (dsp_memory_map pc_addr size).0 (ob_offset_hi 0) ≡ some 0
  pub returned : (dsp_memory_map pc_addr size).1 ≡ pos 0
  pub large_enough : size ≤ 2 ^ log_size * 2 ^ 20
  pub aligned : base % (2 ^ log_size * 2 ^ 20) ≡ 0
  pub covers_start : (base ≤ pc_addr) × (pc_addr < base + 2 ^ log_size * 2 ^ 20)

enabled : (page : ℕ) → bit_or (page * 2 ^ 20) 0x1 ≡ page * 2 ^ 20 + 1
enabled page = omega (arith, bit_or_fields 20 page 1 (omega arith))

-- The window for the size class `n`, whose mask keeps the bits from `20 + n` on.
window_of :
    (pc_addr size n mask : ℕ)
    → ob_window size ≡ some (n, mask)
    → bit_and pc_addr mask ≡ pc_addr / (2 ^ n * 2 ^ 20) * (2 ^ n * 2 ^ 20)
    → size ≤ 2 ^ n * 2 ^ 20
    → Window pc_addr size
unfolding dsp_memory_map written
window_of pc_addr size n mask found masked large = record {
  log_size = n;
  base = page * unit;
  ob_size_written = rw called refl;
  index_written = rw called (ap some (rw masked one_added));
  hi_written = rw called refl;
  returned = rw called refl;
  large_enough = large;
  aligned = mul-mod_left page unit;
  covers_start = (
    omega (arith, div-add-mod' pc_addr unit),
    omega (arith, div-add-mod' pc_addr unit, mod-lt pc_addr some_unit),
  );
}
  where
    unit : ℕ
    unit = 2 ^ n * 2 ^ 20

    page : ℕ
    page = pc_addr / unit

    called : dsp_memory_map pc_addr size ≡ (
      iowrite32 n ob_size
          ∷ iowrite32 (bit_or (bit_and pc_addr mask) 0x1) (ob_offset_index 0)
          ∷ iowrite32 0x0 (ob_offset_hi 0)
          ∷ [],
      pos 0,
    )
    called = rw (dsp_memory_map, found) refl

    some_unit : 0 < unit
    some_unit = omega (arith, one-le-pow n 2 (omega arith))

    one_added : bit_or (page * unit) 0x1 ≡ page * unit + 1
    one_added = rw (← mul_assoc page (2 ^ n) (2 ^ 20)) (enabled (page * 2 ^ n))

-- For a 32-bit address and a size of up to eight megabytes `dspMemoryMap` returns 0, and its
-- registers describe an enabled window that contains the address, is at least as large as the size
-- and is aligned to its own size.
pub dsp_memory_map-Window :
    (pc_addr size : ℕ) → IsWord pc_addr → size ≤ 0x800000 → Window pc_addr size
unfolding ob_window
dsp_memory_map-Window pc_addr size hp hs = elim (dec_le size 0x100000) [
  | yes a ↦
      window_of pc_addr size 0 0xFFF00000 (ground arith)
        (omega (arith, bit_and_field 12 20 pc_addr)) (omega arith)
  | no a ↦ elim (dec_le size 0x200000) [
    | yes b ↦
        window_of pc_addr size 1 0xFFE00000 (ground arith)
          (omega (arith, bit_and_field 11 21 pc_addr)) (omega arith)
    | no b ↦ elim (dec_le size 0x400000) [
      | yes c ↦
          window_of pc_addr size 2 0xFFC00000 (ground arith)
            (omega (arith, bit_and_field 10 22 pc_addr)) (omega arith)
      | no c ↦
          window_of pc_addr size 3 0xFF800000 (ground arith)
            (omega (arith, bit_and_field 9 23 pc_addr)) (omega arith)
    ]
  ]
]

-- The start of the window of four megabytes.
pub dsp_memory_map_index :
    (pc_addr : ℕ)
    → IsWord pc_addr
    → written (dsp_memory_map pc_addr 0x400000).0 (ob_offset_index 0)
      ≡ some (pc_addr / 2 ^ 22 * 2 ^ 22 + 1)
unfolding ob_window dsp_memory_map written
dsp_memory_map_index pc_addr h =
    let masked : bit_and pc_addr 0xFFC00000 ≡ pc_addr / 2 ^ 22 * 2 ^ 22 =
      omega (arith, bit_and_field 10 22 pc_addr) in
    let one_added : bit_or (bit_and pc_addr 0xFFC00000) 0x1 ≡ pc_addr / 2 ^ 22 * 2 ^ 22 + 1 =
      rw masked (omega (arith, bit_or_fields 22 (pc_addr / 2 ^ 22) 1 (omega arith))) in
    ap some one_added
