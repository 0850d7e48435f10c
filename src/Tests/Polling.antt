-- ===== src/Tests/Polling.antt =====
-- The theorems on src/common.c at concrete inputs.
use dspc8681_linux_driver.Base.{
  ℕ, ◌≡◌, ◌≢◌, refl, arith, leb, if◌then◌else◌, bit_and, negsuc, [], ◌∷◌, ◌++◌, some,
}
use dspc8681_linux_driver.Common.{byte_to_32bits, poll_equal_value, poll_value, poll_compare_value}
use dspc8681_linux_driver.Common.Bytes.{word_bytes, byte_to_32bits-word_bytes}
use dspc8681_linux_driver.Common.Poll.{
  Reports, BeforeLast, poll_equal_value-Reports, poll_value-Reports, poll_compare_value-Reports,
}

byte_to_32bits-word_bytes_example :
    byte_to_32bits (word_bytes 0x12345678 ++ 0x9A ∷ []) ≡ some 0x12345678
byte_to_32bits-word_bytes_example = byte_to_32bits-word_bytes 0x12345678 (0x9A ∷ []) (omega arith)

-- The word that the DSP sets in round 2.
abbrev ready_in_two : ℕ → ℕ
ready_in_two k = if leb 2 k then 0x10 else 0

poll_equal_value_last_round : poll_equal_value ready_in_two 0x10 3 ≡ negsuc 0
unfolding poll_equal_value
poll_equal_value_last_round = refl

poll_equal_value-Reports_example :
    Reports (poll_equal_value ready_in_two 0x10 4) (BeforeLast 4 (λ k. ready_in_two k ≡ 0x10))
poll_equal_value-Reports_example = poll_equal_value-Reports ready_in_two 0x10 4

poll_value-Reports_example :
    Reports (poll_value ready_in_two 0x30 4) (BeforeLast 4 (λ k. bit_and (ready_in_two k) 0x30 ≢ 0))
poll_value-Reports_example = poll_value-Reports ready_in_two 0x30 4

poll_compare_value-Reports_example :
    Reports
      (poll_compare_value (λ _. 0x10) ready_in_two 4)
      (BeforeLast 4 (λ k. ready_in_two k ≡ 0x10))
poll_compare_value-Reports_example = poll_compare_value-Reports (λ _. 0x10) ready_in_two 4
