-- ===== src/Common.antt =====
-- src/common.c: reading a big-endian word, and the three polling loops.
pub mod Bytes
pub mod Poll
use dspc8681_linux_driver.Base.{
  ℕ, zero, suc, ◌+◌, Bool, true, false, ltb, ◌==◌, if◌then◌else◌, u32, shl, bit_and, bit_or, ℤ, pos,
  negsuc, List, [], ◌∷◌, Option, none, some,
}

-- `byteTo32bits` at a pointer, which is the rest of the array from there on. `none` is a read past
-- its end.
byte_loop : ℕ → ℕ → List ℕ → Option ℕ
byte_loop zero temp p = some temp
byte_loop (suc left) temp [] = none
byte_loop (suc left) temp (b ∷ p) = byte_loop left (bit_or (u32 (shl temp 8)) b) p

pub byte_to_32bits : List ℕ → Option ℕ
unfolding byte_loop
byte_to_32bits [] = none
byte_to_32bits (b ∷ p) = byte_loop 3 b p

-- The loop that the polling functions share, with `left` rounds to go before `loopCount` reaches
-- `maxPollCount`; `hit k` says whether the words read in round `k` set `stopPoll`. The result is
-- `loopCount` at the exit: after a hit the `for` still counts the round.
pub poll_loop : (ℕ → Bool) → ℕ → ℕ → ℕ
poll_loop hit zero loop_count = loop_count
poll_loop hit (suc left) loop_count = elim (hit loop_count) [
  | true ↦ loop_count + 1
  | false ↦ poll_loop hit left (loop_count + 1)
]

-- The test of `loopCount` after the loop.
pub poll_result : ℕ → ℕ → ℤ
poll_result loop_count max_poll_count = if ltb loop_count max_poll_count then pos 0 else negsuc 0

-- `address k` is the word that `*pAddress` holds in round `k`: the DSP may change it between two.
unfoldable pub poll_equal_value : (ℕ → ℕ) → ℕ → ℕ → ℤ
unfolding poll_loop poll_result
poll_equal_value address poll_val max_poll_count =
    poll_result (poll_loop (λ k. address k == poll_val) max_poll_count 0) max_poll_count

pub poll_value : (ℕ → ℕ) → ℕ → ℕ → ℤ
unfolding poll_result
poll_value address poll_val max_poll_count =
    poll_result
      (poll_loop (λ k. if bit_and (address k) poll_val == 0 then false else true) max_poll_count 0)
      max_poll_count

pub poll_compare_value : (ℕ → ℕ) → (ℕ → ℕ) → ℕ → ℤ
unfolding poll_result
poll_compare_value p_address q_address max_poll_count =
    poll_result (poll_loop (λ k. q_address k == p_address k) max_poll_count 0) max_poll_count
