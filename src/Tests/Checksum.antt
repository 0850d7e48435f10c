-- ===== src/Tests/Checksum.antt =====
-- The theorems on src/crc32.c at concrete inputs.
use dspc8681_linux_driver.Base.{ℕ, ◌+◌, ◌*◌, ◌≡◌, refl, arith, not32, [], ◌∷◌, take, some}
use dspc8681_linux_driver.Crc.{table_entry, crc32_get_crc, crc32_init_crc, crc32_final_crc}
use dspc8681_linux_driver.Crc.Shift.{crc_shifts, table_entry-crc_shifts}
use dspc8681_linux_driver.Crc.Stream.{
  crc_stream, crc_register, crc32_get_crc-stream, crc32_get_crc-register,
}
use dspc8681_linux_driver.Crc.Detect.{crc32_get_crc_detects_burst}
use dspc8681_linux_driver.Tests.Data.{digits, digits-IsByte}

digits_crc : crc32_get_crc digits 9 ≡ some 0xFC891918
unfolding crc32_get_crc
digits_crc = refl

crc32_get_crc-register_example :
    crc32_get_crc digits 9 ≡ some (not32 (crc_register 0xffffffff digits))
crc32_get_crc-register_example = crc32_get_crc-register digits digits-IsByte

crc32_get_crc-stream_example :
    crc32_get_crc digits 4 ≡ some (crc32_final_crc (crc_stream crc32_init_crc (take 4 digits)))
crc32_get_crc-stream_example = crc32_get_crc-stream digits 4

table_entry-crc_shifts_example : table_entry 0x31 ≡ crc_shifts 8 (0x31 * 0x1000000)
table_entry-crc_shifts_example = table_entry-crc_shifts 0x31 (omega arith)

-- The digits again, by their place.
abbrev byte : ℕ → ℕ
byte k = 0x31 + k

crc32_get_crc_detects_burst_example :
    (byte 1 ≡ 0x32) × (byte 2 ≡ 0x33) × (byte 3 ≡ 0x34) × (byte 4 ≡ 0x35)
crc32_get_crc_detects_burst_example =
    crc32_get_crc_detects_burst (0x31 ∷ []) (0x36 ∷ 0x37 ∷ 0x38 ∷ 0x39 ∷ []) (byte 1) (byte 2)
      (byte 3) (byte 4) 0x32 0x33 0x34 0x35 digits-IsByte digits-IsByte refl
