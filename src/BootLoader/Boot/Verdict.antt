-- ===== src/BootLoader/Boot/Verdict.antt =====
-- What the return code of `bootLoader` says of the DSP.
use dspc8681_linux_driver.Base.{
  ℕ, ◌%◌, ◌<◌, ◌≡◌, ◌↔◌, inl, inr, refl, arith, ltb, true, ℤ, pos, negsuc, IsWord, List, [], ◌∷◌,
  length, set, All, Run, done,
}
use dspc8681_linux_driver.BootLoader.Memory.{DspMemory, in_ll2}
use dspc8681_linux_driver.BootLoader.Memory.Overlay.{overlay_memory}
use dspc8681_linux_driver.BootLoader.Memory.Placement.{magic_index}
use dspc8681_linux_driver.BootLoader.Upload.Table.{Section, IsSection, table_bytes}
use dspc8681_linux_driver.BootLoader.Upload.Correct.{load, IsMapped, Fits, upload_program-load}
use dspc8681_linux_driver.BootLoader.Outbound.{dsp_memory_map}
use dspc8681_linux_driver.BootLoader.Boot.{
  Images, Event, mapped, polled, Dsp, Host, emit, wait_cores, boot_cores, align_phy_addr, addr_map,
  put_dsp_img_zone, boot_loader,
}
use dspc8681_linux_driver.BootLoader.Boot.Protocol.{push_events, cores_events}
use dspc8681_linux_driver.BootLoader.Boot.Pushes.{
  Resets, TakesAll, Runs, Decides, wait_which_core_run-Decides, Pushes, push_core0-Pushes,
  push_cores-Pushes,
}

-- A run that returns: `Left` holds of what it leaves, and its code tells whether the images were
-- taken, `Pushed`, and the cores run, `Running`.
pub record Verdict {A : Type 0} (r : Run (A × ℤ)) (Left : A → Type 0) (Pushed Running : Type 0)
    : Type 0 where
  pub state : A
  pub code : ℤ
  pub returned : r ≡ done (state, code)
  pub left : Left state
  pub success : (code ≡ pos 0) ↔ (Pushed × Running)
  pub cores_not_running : (code ≡ negsuc 3) ↔ (Pushed × ¬ Running)
  pub code_not_taken : (code ≡ negsuc 1) ↔ ¬ Pushed

pub Verdict-weaken :
    {A : Type 0} {r : Run (A × ℤ)} {Left Left' : A → Type 0} {Pushed Running : Type 0}
    → ((a : A) → Left a → Left' a)
    → Verdict r Left Pushed Running
    → Verdict r Left' Pushed Running
Verdict-weaken weaker v = record {
  state = v.state;
  code = v.code;
  returned = v.returned;
  left = weaker v.state v.left;
  success = v.success;
  cores_not_running = v.cores_not_running;
  code_not_taken = v.code_not_taken;
}

-- The memory and `gpRegisterTable` are those given.
abbrev pub Keeps : DspMemory → List ℕ → Host → Type 0
Keeps m tables h = (h.memory ≡ m) × (h.register_table ≡ tables)

Verdict-failed :
    {r : Run (Host × ℤ)} {Pushed Running : Type 0} (h : Host) (es : List Event)
    → r ≡ done (record h { events = es }, negsuc 1)
    → ¬ Pushed
    → Verdict r (Keeps h.memory h.register_table) Pushed Running
Verdict-failed h es e not_pushed = record {
  state = record h { events = es };
  code = negsuc 1;
  returned = e;
  left = (refl, refl);
  success = (λ e. cc, λ p. absurd (not_pushed p.0));
  cores_not_running = (λ e. cc, λ p. absurd (not_pushed p.0));
  code_not_taken = (λ _. not_pushed, λ _. refl);
}

wait_cores-Verdict :
    {Pushed : Type 0} (dsp : Dsp) (h : Host)
    → Pushed
    → Verdict (wait_cores dsp h) (Keeps h.memory h.register_table) Pushed (Runs dsp h.events)
unfolding wait_cores Decides
wait_cores-Verdict dsp h pushed_all = elim (wait_which_core_run-Decides dsp h) [
  | inl (runs, e) ↦ record {
    state = emit polled h;
    code = pos 0;
    returned = rw (wait_cores, e) refl;
    left = (refl, refl);
    success = (λ _. (pushed_all, runs), λ _. refl);
    cores_not_running = (λ e. cc, λ p. absurd (p.1 runs));
    code_not_taken = (λ e. cc, λ none. absurd (none pushed_all));
  }
  | inr (not_runs, e) ↦ record {
    state = emit polled h;
    code = negsuc 3;
    returned = rw (wait_cores, e) refl;
    left = (refl, refl);
    success = (λ e. cc, λ p. absurd (not_runs p.1));
    cores_not_running = (λ _. (pushed_all, not_runs), λ _. refl);
    code_not_taken = (λ e. cc, λ none. absurd (none pushed_all));
  }
]

-- What the DSP must do for the images: answer the reset before core 0's, and take each.
abbrev pub TakesImages : Dsp → ℕ → Images → List Event → Type 0
TakesImages dsp zone images es =
    Resets dsp es × TakesAll dsp zone (images.core0 ∷ images.core1 ∷ images.core2 ∷ []) es

abbrev pub images_events : ℕ → Images → List Event → List Event
images_events zone images es =
    cores_events zone (images.core0 ∷ images.core1 ∷ images.core2 ∷ []) es

boot_cores-Verdict :
    (dsp : Dsp) (zone : ℕ) (images : Images) (h : Host)
    → length images.core0 % 4 ≡ 0
    → Verdict
        (boot_cores dsp zone images h)
        (Keeps h.memory h.register_table)
        (TakesImages dsp zone images h.events)
        (Runs dsp (images_events zone images h.events))
unfolding boot_cores Pushes cores_events
boot_cores-Verdict dsp zone images h whole =
    elim (push_core0-Pushes dsp zone images.core0 h whole) [
      | inr (not_taken, (es, e)) ↦ Verdict-failed h es (rw e refl) (λ p. not_taken (p.0, p.1.0))
      | inl (taken, e) ↦
          elim (push_cores-Pushes dsp zone (images.core1 ∷ images.core2 ∷ [])
            (record h { events = push_events zone images.core0 h.events })) [
              | inr (not_rest, (es, e')) ↦
                  Verdict-failed h es (rw (e, e') refl) (λ p. not_rest p.1.1)
              | inl (rest, e') ↦
                  rw (e, e')
                    (wait_cores-Verdict dsp
                      (record h { events = images_events zone images h.events })
                      (taken.0, (taken.1, rest)))
            ]
    ]

-- The whole answer: on a well-formed boot table in mapped windows, with an image of core 0 of whole
-- words and an index inside `gpRegisterTable`, `bootLoader` returns, for every DSP. It returns 0
-- exactly when the DSP answers the reset before core 0's image, takes all three images and reports
-- the cores, each in a round before the last; -4 exactly when it takes them and does not report
-- the cores; -2 exactly when it does not take them all. In each case the memory is the loaded
-- table, and `gpRegisterTable` has the address of the register table. What it answers to the other resets, and
-- whether it ever reports that it has started, makes no difference.
pub boot_loader-Verdict :
    (fuel : ℕ) (dsp : Dsp) (images : Images) (dma_vir_addr dma_phy_addr processor_index : ℕ)
    (h : Host) (entry : ℕ) (ss : List Section) (rest : List ℕ)
    → images.dsp_init ≡ table_bytes entry ss rest
    → length ss < fuel
    → IsWord entry
    → IsMapped h.memory
    → magic_index < h.memory.ll2.size
    → All IsSection ss
    → All (Fits h.memory) ss
    → length images.core0 % 4 ≡ 0
    → processor_index < length h.register_table
    → let es =
        polled ∷ mapped (dsp_memory_map (align_phy_addr dma_phy_addr) 0x400000).0 ∷ h.events in
      Verdict
        (boot_loader fuel dsp images dma_vir_addr dma_phy_addr processor_index h)
        (Keeps
          (overlay_memory (load h.memory ss) in_ll2 magic_index (entry ∷ []))
          (set h.register_table processor_index (addr_map dma_vir_addr dma_phy_addr)))
        (TakesImages dsp (put_dsp_img_zone (addr_map dma_vir_addr dma_phy_addr)) images es)
        (Runs dsp (images_events (put_dsp_img_zone (addr_map dma_vir_addr dma_phy_addr)) images es))
unfolding boot_loader
boot_loader-Verdict fuel dsp images dma_vir_addr dma_phy_addr processor_index h entry ss rest table
      enough he hm hmagic vs fs whole inside =
    let index_inside : ltb processor_index (length h.register_table) ≡ true = ground arith in
    rw
      (
        index_inside,
        table,
        upload_program-load fuel 0 entry h.memory ss rest enough he hm hmagic vs fs,
      )
      (boot_cores-Verdict dsp _ images _ whole)
