-- ===== src/BootLoader/Boot/Pushes.antt =====
-- What the DSP must answer for each push of `bootLoader` to succeed, and what the push leaves.
use dspc8681_linux_driver.Base.{
  ℕ, zero, suc, ◌%◌, ◌*◌, ◌/◌, ◌+◌, ◌≡◌, ◌≢◌, ◌↔◌, ◌⊎◌, inl, inr, refl, arith, Bool, Bool-cases,
  true, false, bit_and, ℤ, pos, negsuc, List, [], ◌∷◌, length, Run, done,
}
use dspc8681_linux_driver.Common.Poll.{BeforeLast, poll_value-Reports, poll_compare_value-Reports}
use dspc8681_linux_driver.BootLoader.Boot.{
  Event, pushed, copied, polled, Dsp, Host, emit, is_0, wait_push_code, finish_push,
  write_out_buffer, push_core0, push_cores, wait_which_core_run, max_poll_count, pc_pushcode_reset,
  pc_pushcode_finish, dsp_getcode_reset, dsp_getcode_finish,
}
use dspc8681_linux_driver.BootLoader.Boot.Protocol.{push_events, cores_events, memcpy_all}

-- The DSP shows a bit of `v` in some round before the last.
abbrev pub Answers : (ℕ → ℕ) → ℕ → Type 0
Answers status v = BeforeLast max_poll_count (λ k. bit_and (status k) v ≢ 0)

-- It answers the reset, when the host has done `es`.
abbrev pub Resets : Dsp → List Event → Type 0
Resets dsp es = Answers (dsp.push_code_status (pushed pc_pushcode_reset ∷ es)) dsp_getcode_reset

-- It takes the image `code`.
abbrev pub Takes : Dsp → ℕ → List ℕ → List Event → Type 0
Takes dsp zone code es =
    Answers
      (dsp.push_code_status
        (pushed pc_pushcode_finish ∷ copied zone code ∷ polled ∷ pushed pc_pushcode_reset ∷ es))
      dsp_getcode_finish

-- It takes the images one after another.
abbrev pub TakesAll : Dsp → ℕ → List (List ℕ) → List Event → Type 0
TakesAll dsp zone [] es = Unit
TakesAll dsp zone (code ∷ codes) es =
    Takes dsp zone code es × TakesAll dsp zone codes (push_events zone code es)

-- It reports the cores 0 to 2 as running.
abbrev pub Runs : Dsp → List Event → Type 0
Runs dsp es = BeforeLast max_poll_count (λ k. dsp.multi_core_boot_status es k ≡ 0x07)

pub is_0_iff : (r : ℤ) → (is_0 r ≡ true) ↔ (r ≡ pos 0)
is_0_iff (pos zero) = (λ e. refl, λ e. refl)
is_0_iff (pos (suc n)) = (λ e. cc, λ e. cc)
is_0_iff (negsuc n) = (λ e. cc, λ e. cc)

-- A test that decides `P`.
unfoldable pub Decides : Bool → Type 0 → Type 0
Decides b P = (P × (b ≡ true)) ⊎ (¬ P × (b ≡ false))

pub Decides-is_0 : (r : ℤ) (P : Type 0) → (r ≡ pos 0) ↔ P → Decides (is_0 r) P
unfolding Decides
Decides-is_0 r P means = elim (Bool-cases (is_0 r)) [
  | inl e ↦ inl (means.0 ((is_0_iff r).0 e), e)
  | inr e ↦ inr (λ p. let e' : is_0 r ≡ true = (is_0_iff r).1 (means.1 p) in cc, e)
]

pub wait_push_code-Decides :
    (dsp : Dsp) (v : ℕ) (h : Host)
    → Decides (is_0 (wait_push_code dsp v h)) (Answers (dsp.push_code_status h.events) v)
unfolding wait_push_code
wait_push_code-Decides dsp v h = Decides-is_0 _ _ (poll_value-Reports _ _ max_poll_count).0

pub wait_which_core_run-Decides :
    (dsp : Dsp) (h : Host) → Decides (is_0 (wait_which_core_run dsp h)) (Runs dsp h.events)
unfolding wait_which_core_run
wait_which_core_run-Decides dsp h =
    Decides-is_0 _ _ (poll_compare_value-Reports _ _ max_poll_count).0

-- A push succeeds with `P` and the events `es`, or fails with -2. Only the events change.
unfoldable pub Pushes : Run (Host × ℤ) → Host → Type 0 → List Event → Type 0
Pushes r h P es =
    (P × (r ≡ done (record h { events = es }, pos 0)))
    ⊎ (¬ P × ((left : List Event) × (r ≡ done (record h { events = left }, negsuc 1))))

pub finish_push-cases :
    (dsp : Dsp) (h : Host)
    → Pushes
        (done (finish_push dsp h))
        h
        (Answers (dsp.push_code_status (pushed pc_pushcode_finish ∷ h.events)) dsp_getcode_finish)
        (pushed pc_pushcode_reset ∷ polled ∷ pushed pc_pushcode_finish ∷ h.events)
unfolding finish_push Pushes Decides
finish_push-cases dsp h =
    elim (wait_push_code-Decides dsp dsp_getcode_finish (emit (pushed pc_pushcode_finish) h)) [
      | inl (taken, answer) ↦ inl (taken, rw (finish_push, answer) refl)
      | inr (not_taken, answer) ↦ inr (
        not_taken,
        (polled ∷ pushed pc_pushcode_finish ∷ h.events, rw (finish_push, answer) refl),
      )
    ]

pub write_out_buffer-Pushes :
    (dsp : Dsp) (zone : ℕ) (code : List ℕ) (n : ℕ) (h : Host)
    → n ≡ length code
    → Pushes
        (write_out_buffer dsp zone code n (emit polled (emit (pushed pc_pushcode_reset) h)))
        h
        (Takes dsp zone code h.events)
        (push_events zone code h.events)
unfolding write_out_buffer Pushes push_events
write_out_buffer-Pushes dsp zone code n h e = rw (memcpy_all code n e) (
    finish_push-cases dsp
      (emit (copied zone code) (emit polled (emit (pushed pc_pushcode_reset) h))))

pub push_core0-Pushes :
    (dsp : Dsp) (zone : ℕ) (code : List ℕ) (h : Host)
    → length code % 4 ≡ 0
    → Pushes
        (push_core0 dsp zone code h)
        h
        (Resets dsp h.events × Takes dsp zone code h.events)
        (push_events zone code h.events)
unfolding push_core0 Pushes Decides
push_core0-Pushes dsp zone code h whole =
    elim (wait_push_code-Decides dsp dsp_getcode_reset (emit (pushed pc_pushcode_reset) h)) [
      | inl (resets, answer) ↦
          elim (write_out_buffer-Pushes dsp zone code ((length code + 3) / 4 * 4) h (omega arith)) [
            | inl (taken, e) ↦ inl ((resets, taken), rw (push_core0, answer) e)
            | inr (not_taken, (es, e)) ↦ inr (λ p. not_taken p.1, (es, rw (push_core0, answer) e))
          ]
      | inr (not_resets, answer) ↦ inr (
        λ p. not_resets p.0,
        (polled ∷ pushed pc_pushcode_reset ∷ h.events, rw (push_core0, answer) refl),
      )
    ]

pub push_cores-Pushes :
    (dsp : Dsp) (zone : ℕ) (codes : List (List ℕ)) (h : Host)
    → Pushes
        (push_cores dsp zone codes h)
        h
        (TakesAll dsp zone codes h.events)
        (cores_events zone codes h.events)
unfolding push_cores Pushes cores_events
push_cores-Pushes dsp zone [] h = inl (tt, refl)
push_cores-Pushes dsp zone (code ∷ codes) h =
    elim (write_out_buffer-Pushes dsp zone code (length code) h refl) [
      | inl (taken, e) ↦
          elim (push_cores-Pushes dsp zone codes
            (record h { events = push_events zone code h.events })) [
              | inl (rest, e') ↦ inl ((taken, rest), rw e e')
              | inr (not_rest, (es, e')) ↦ inr (λ p. not_rest p.1, (es, rw e e'))
            ]
      | inr (not_taken, (es, e)) ↦ inr (λ p. not_taken p.0, (es, rw e refl))
    ]
