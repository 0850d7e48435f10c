-- ===== src/Common/Poll.antt =====
-- When the polling functions report success.
use dspc8681_linux_driver.Base.{
  ℕ, zero, suc, ◌+◌, ◌≤◌, ◌<◌, ◌≡◌, ◌≢◌, ◌↔◌, inl, inr, refl, arith, Bool, true, false, ltb, ==_iff,
  bit_and, ℤ, pos, negsuc, Bool-cases,
}
use native.Mathlib.Decide.{dec_lt}
use dspc8681_linux_driver.Common.{
  poll_loop, poll_result, poll_equal_value, poll_value, poll_compare_value,
}

-- The first hit among the rounds from `i` on decides where the loop stops.
poll_loop_hit :
    (hit : ℕ → Bool) (left i max : ℕ)
    → i + left ≡ max
    → poll_loop hit left i < max
    → (k : ℕ) × (k + 1 < max) × (hit k ≡ true)
unfolding poll_loop
poll_loop_hit hit zero i max e h = absurd (omega arith)
poll_loop_hit hit (suc left) i max e h = elim (Bool-cases (hit i)) [
  | inl found ↦ (i, ground arith, found)
  | inr missed ↦ poll_loop_hit hit left (i + 1) max (omega arith) (ground arith)
]

poll_loop_le :
    (hit : ℕ → Bool) (left i k : ℕ)
    → i ≤ k
    → k < i + left
    → hit k ≡ true
    → poll_loop hit left i ≤ k + 1
unfolding poll_loop
poll_loop_le hit zero i k p q e = absurd (omega arith)
poll_loop_le hit (suc left) i k p q e = elim (Bool-cases (hit i)) [
  | inl found ↦ ground arith
  | inr missed ↦
      rw (missed, poll_loop) (poll_loop_le hit left (i + 1) k (after missed) (omega arith) e)
]
  where
    after : hit i ≡ false → i + 1 ≤ k
    after missed = elim (dec_lt i k) [
      | yes below ↦ omega arith
      | no not_below ↦
          let same : i ≡ k = omega arith in let both : hit k ≡ false = rw (← same) missed in cc
    ]

-- The result `r` is 0 exactly when `P`, and -1 exactly when not.
abbrev pub Reports : ℤ → Type 0 → Type 0
Reports r P = ((r ≡ pos 0) ↔ P) × ((r ≡ negsuc 0) ↔ ¬ P)

-- A round before the last of `max` in which `P` holds.
abbrev pub BeforeLast : ℕ → (ℕ → Type 0) → Type 0
BeforeLast max P = (k : ℕ) × (k + 1 < max) × P k

poll_result_Reports :
    (hit : ℕ → Bool) (P : ℕ → Type 0) (max : ℕ)
    → ((k : ℕ) → (hit k ≡ true) ↔ P k)
    → Reports (poll_result (poll_loop hit max 0) max) (BeforeLast max P)
unfolding poll_result
poll_result_Reports hit P max means = elim (Bool-cases (ltb (poll_loop hit max 0) max)) [
  | inl in_time ↦ rw in_time (
    (λ _. hit_before in_time, λ _. refl),
    (λ e. absurd (cc), λ none_hit. absurd (none_hit (hit_before in_time))),
  )
  | inr late ↦
      rw late
        ((λ e. absurd (cc), λ found. absurd (not_late late found)), (λ _. not_late late, λ _. refl))
]
  where
    hit_before : ltb (poll_loop hit max 0) max ≡ true → BeforeLast max P
    hit_before in_time =
        let (k, below, found) = poll_loop_hit hit max 0 max (omega arith) (ground arith) in
        (k, below, (means k).0 found)

    not_late : ltb (poll_loop hit max 0) max ≡ false → ¬ BeforeLast max P
    not_late late (k, below, found) =
        ground (arith, poll_loop_le hit max 0 k (omega arith) (omega arith) ((means k).1 found))

-- `pollEqualValue` returns 0 exactly when the word equals `pollVal` in some round before the last
-- of `maxPollCount`, and -1 exactly when it does not: a match in the last round counts as none.
pub poll_equal_value-Reports :
    (address : ℕ → ℕ) (poll_val max_poll_count : ℕ)
    → Reports
        (poll_equal_value address poll_val max_poll_count)
        (BeforeLast max_poll_count (λ k. address k ≡ poll_val))
unfolding poll_equal_value
poll_equal_value-Reports address poll_val max_poll_count =
    poll_result_Reports _ _ max_poll_count (λ k. ==_iff (address k) poll_val)

-- `pollValue` returns 0 exactly when some round before the last reads a word that has a bit of
-- `pollVal` set, and -1 exactly when none does.
pub poll_value-Reports :
    (address : ℕ → ℕ) (poll_val max_poll_count : ℕ)
    → Reports
        (poll_value address poll_val max_poll_count)
        (BeforeLast max_poll_count (λ k. bit_and (address k) poll_val ≢ 0))
unfolding poll_value
poll_value-Reports address poll_val max_poll_count =
    poll_result_Reports _ _ max_poll_count (λ k. ground arith)

-- `pollCompareValue` returns 0 exactly when both words are equal in some round before the last, and
-- -1 exactly when they are not.
pub poll_compare_value-Reports :
    (p_address q_address : ℕ → ℕ) (max_poll_count : ℕ)
    → Reports
        (poll_compare_value p_address q_address max_poll_count)
        (BeforeLast max_poll_count (λ k. q_address k ≡ p_address k))
unfolding poll_compare_value
poll_compare_value-Reports p_address q_address max_poll_count =
    poll_result_Reports _ _ max_poll_count (λ k. ==_iff (q_address k) (p_address k))
