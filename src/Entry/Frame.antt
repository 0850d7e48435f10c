-- ===== src/Entry/Frame.antt =====
-- What the running driver writes to the application registers.
use dspc8681_linux_driver.Base.{
  ℕ, ◌/◌, ◌≡◌, ◌≢◌, ◌⊎◌, ◌∙◌, ap, sym, false, refl, inl, inr, arith, ◌==◌, List, [], ◌∷◌, ◌++◌, All,
  All-append_iff, none,
}
use mathlib.Core.List.{append-nil, append_assoc}
use dspc8681_linux_driver.Registers.{IoWrite, written, ep_irq_clr, legacy_a_irq_status_raw}
use dspc8681_linux_driver.Pcie.{pci_clear_dsp_interrupt}
use dspc8681_linux_driver.Entry.{
  Chip, init_chip, change_status, isr_handler, Step, calls, interrupts, shares, Reachable, starts,
  continues,
}
use dspc8681_linux_driver.Entry.Calls.{IsStable, dpu_ioctl-IsStable}

-- A write that clears an interrupt of the DSP, or that interrupts it.
abbrev IsSignal : IoWrite → Type 0
IsSignal w = (w.word ≡ ep_irq_clr / 4) ⊎ (w.word ≡ legacy_a_irq_status_raw / 4)

-- The chip has the writes `ws`, and signals behind them.
abbrev Signalled : List IoWrite → Chip → Type 0
Signalled ws c = (later : List IoWrite) × (c.written_registers ≡ ws ++ later) × All IsSignal later

one_more :
    (ws xs : List IoWrite) (w : IoWrite)
    → IsSignal w
    → (later : List IoWrite) × (xs ≡ ws ++ later) × All IsSignal later
    → (later : List IoWrite) × (xs ++ w ∷ [] ≡ ws ++ later) × All IsSignal later
one_more ws xs w signal (later, after, signals) = (
  later ++ w ∷ [],
  ap (λ ys. ys ++ w ∷ []) after ∙ append_assoc ws later (w ∷ []),
  (All-append_iff IsSignal later (w ∷ [])).1 (signals, (signal, tt)),
)

Signalled-IsStable : (ws : List IoWrite) → IsStable (Signalled ws)
unfolding change_status
Signalled-IsStable ws = record {
  changes = λ t c h. h;
  signals = λ c h. one_more ws c.written_registers _ (inr refl) h;
  takes_dpm = λ c n e h. h;
  takes_write = λ c n e h. h;
  takes_read = λ c n e h. h;
}

Step-Signalled : (ws : List IoWrite) {c c' : Chip} → Signalled ws c → Step c c' → Signalled ws c'
unfolding isr_handler pci_clear_dsp_interrupt
Step-Signalled ws {c} h (calls table command e) =
    dpu_ioctl-IsStable (Signalled ws) (Signalled-IsStable ws) table command c e h
Step-Signalled ws h (interrupts c) = one_more ws c.written_registers _ (inl refl) h
Step-Signalled ws h (shares c table) = h

Reachable-Signalled : {ws : List IoWrite} {c : Chip} → Reachable ws c → Signalled ws c
unfolding init_chip
Reachable-Signalled {ws} (starts table) = ([], sym (append-nil ws), tt)
Reachable-Signalled {ws} (continues r s) = Step-Signalled ws (Reachable-Signalled r) s

written-signals :
    (ws : List IoWrite) (offset : ℕ)
    → All IsSignal ws
    → offset / 4 ≢ ep_irq_clr / 4
    → offset / 4 ≢ legacy_a_irq_status_raw / 4
    → written ws offset ≡ none
unfolding written
written-signals [] offset h p q = refl
written-signals (w ∷ ws) offset (signal, hs) p q =
    let other_word : w.word ≢ offset / 4 =
      λ e. elim signal [ inl clears ↦ p (sym e ∙ clears) | inr raises ↦ q (sym e ∙ raises) ] in
    let miss : (w.word == offset / 4) ≡ false = ground arith in
    rw (written-signals ws offset hs p q, miss) refl

written-append_none :
    (xs ys : List IoWrite) (offset : ℕ)
    → written ys offset ≡ none
    → written (xs ++ ys) offset ≡ written xs offset
unfolding written
written-append_none [] ys offset e = e
written-append_none (x ∷ xs) ys offset e = rw (written-append_none xs ys offset e) refl

-- Registers other than the two that clear or raise an interrupt: what `init_module` has written to them
-- still stands in every state that the driver reaches.
pub Reachable-written :
    {c : Chip} (ws : List IoWrite) (offset : ℕ)
    → Reachable ws c
    → offset / 4 ≢ ep_irq_clr / 4
    → offset / 4 ≢ legacy_a_irq_status_raw / 4
    → written c.written_registers offset ≡ written ws offset
Reachable-written ws offset r p q =
    let (later, after, signals) = Reachable-Signalled r in
    ap (λ xs. written xs offset) after
    ∙ written-append_none ws later offset (written-signals later offset signals p q)
