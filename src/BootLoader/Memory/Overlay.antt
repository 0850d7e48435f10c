-- ===== src/BootLoader/Memory/Overlay.antt =====
-- What a call of `writeDSPMemory` leaves in the memory: the buffer, laid over one window.
pub mod Lookup
pub mod Returns
use dspc8681_linux_driver.Base.{
  ℕ, zero, suc, ◌+◌, ◌*◌, ◌/◌, ◌≤◌, ◌<◌, ◌≡◌, refl, sym, ap, ◌∙◌, arith, ltb, ◌==◌, if◌then◌else◌,
  inl, inr, Bool-cases, List, [], ◌∷◌, ◌++◌, length, get_elem?, get_elem?-drop, get_elem?-some,
  drop, take, take-length, true, false, ◌≢◌, some, none, done, fault,
}
use mathlib.Core.Path.{fun_ext}
use native.Mathlib.Numerals.{add-one}
use dspc8681_linux_driver.BootLoader.Memory.{
  Window, DspMemory, Region, in_ll2, in_msmc, in_ddr, window, set_window, store, write_loop, locate,
  write_at, write_dsp_memory,
}

-- The words `vs` over `f`, from `index` on.
pub overlay : (ℕ → ℕ) → ℕ → List ℕ → ℕ → ℕ
overlay f index [] j = f j
overlay f index (v ∷ vs) j = if j == index then v else overlay f (index + 1) vs j

overlay_before :
    (f : ℕ → ℕ) (index : ℕ) (vs : List ℕ) (j : ℕ) → j < index → overlay f index vs j ≡ f j
unfolding overlay
overlay_before f index [] j h = refl
overlay_before f index (v ∷ vs) j h = ground (arith, overlay_before f (index + 1) vs j)

pub overlay_congr :
    (f g : ℕ → ℕ) (index : ℕ) (vs : List ℕ) (j : ℕ)
    → f j ≡ g j
    → overlay f index vs j ≡ overlay g index vs j
unfolding overlay
overlay_congr f g index [] j h = h
overlay_congr f g index (v ∷ vs) j h = ground (arith, overlay_congr f g (index + 1) vs j h)

overlay-append_at :
    (f : ℕ → ℕ) (index next : ℕ) (xs ys : List ℕ) (j : ℕ)
    → next ≡ index + length xs
    → overlay (overlay f index xs) next ys j ≡ overlay f index (xs ++ ys) j
unfolding overlay
overlay-append_at f index next [] ys j e = let e' : next ≡ index = omega arith in rw e' refl
overlay-append_at f index next (x ∷ xs) ys j e = elim (Bool-cases (j == index)) [
  | inl here ↦ overlay_before _ next ys j (ground arith) ∙ rw here
  | inr there ↦
      overlay_congr _ (overlay f (index + 1) xs) next ys j (rw there)
      ∙ overlay-append_at f (index + 1) next xs ys j (omega arith)
      ∙ rw there
]

-- Laying one run of words behind another is laying both.
pub overlay-append :
    (f : ℕ → ℕ) (index next : ℕ) (xs ys : List ℕ)
    → next ≡ index + length xs
    → overlay (overlay f index xs) next ys ≡ overlay f index (xs ++ ys)
overlay-append f index next xs ys e = fun_ext λ j. overlay-append_at f index next xs ys j e

abbrev pub overlay_window : Window → ℕ → List ℕ → Window
overlay_window w index vs = record w { word = overlay w.word index vs }

abbrev pub stored : Window → ℕ → ℕ → Window
stored w ptr v = record w { word = λ j. if j == ptr then v else w.word j }

-- The loop of `writeDSPMemory` over what is left of the buffer.
write_loop_lem :
    (left i ptr : ℕ) (buffer : List ℕ) (w : Window)
    → i + left ≤ length buffer
    → ptr + left ≤ w.size
    → write_loop left i ptr buffer w ≡ done (overlay_window w ptr (take left (drop i buffer)))
unfolding write_loop store overlay
write_loop_lem zero i ptr buffer w p q = refl
write_loop_lem (suc left) i ptr buffer w p q = elim (get_elem?-drop buffer i) [
  | inl (missing, _) ↦ absurd (in_range missing)
  | inr (v, found, rest) ↦
      rw (found, rest, write_loop, inside, store)
        (write_loop_lem left (i + 1) (ptr + 1) buffer (stored w ptr v) (omega arith) (omega arith)
          ∙ rw (add-one i) (
              ap (λ f. done (record w { word = f }))
                (overlay-append w.word ptr (ptr + 1) (v ∷ []) _ refl)))
]
  where
    inside : ltb ptr w.size ≡ true
    inside = ground arith

    in_range : get_elem? buffer i ≢ none
    in_range missing = let (v, found) = get_elem?-some buffer i (omega arith) in cc

abbrev pub overlay_memory : DspMemory → Region → ℕ → List ℕ → DspMemory
overlay_memory m region index vs = set_window m region (overlay_window (window m region) index vs)

pub overlay_none :
    (m : DspMemory) (region : Region) (index : ℕ) → overlay_memory m region index [] ≡ m
unfolding overlay
overlay_none m in_ll2 index = refl
overlay_none m in_msmc index = refl
overlay_none m in_ddr index = refl

-- `writeDSPMemory` with a located address and a whole buffer that fits the window stores the
-- buffer there, changes nothing else and returns the length.
pub write_dsp_memory_lem :
    (m : DspMemory) (core_num a index : ℕ) (region : Region) (buffer : List ℕ) (n : ℕ)
    → locate core_num a ≡ some (region, index)
    → n ≡ length buffer * 4
    → index + length buffer ≤ (window m region).size
    → write_dsp_memory m core_num a buffer n ≡ done (overlay_memory m region index buffer, n)
unfolding write_dsp_memory write_at
write_dsp_memory_lem m core_num a index region [] n located e fits =
    let none_left : n ≡ 0 = omega arith in
    rw none_left (ap (λ m'. done (m', 0)) (sym (overlay_none m region index)))
write_dsp_memory_lem m core_num a index region (v ∷ vs) n located e fits =
    let some_left : (n == 0) ≡ false = ground arith in
    let count : n / 4 ≡ length (v ∷ vs) = omega arith in
    rw (
      some_left,
      located,
      write_at,
      count,
      write_loop_lem (length (v ∷ vs)) 0 index (v ∷ vs) (window m region) (omega arith) fits,
      take-length (v ∷ vs),
    )

write_loop_outside :
    (left i ptr : ℕ) (buffer : List ℕ) (w : Window)
    → i + left ≤ length buffer
    → w.size < ptr + left
    → ptr ≤ w.size
    → write_loop left i ptr buffer w ≡ fault
unfolding write_loop store
write_loop_outside zero i ptr buffer w p q r = absurd (omega arith)
write_loop_outside (suc left) i ptr buffer w p q r = elim (get_elem?-drop buffer i) [
  | inl (missing, _) ↦ rw (missing, write_loop)
  | inr (v, found, _) ↦ elim (Bool-cases (ltb ptr w.size)) [
    | inl inside ↦
        rw (found, write_loop, inside, store)
          (write_loop_outside left (i + 1) (ptr + 1) buffer (stored w ptr v) (omega arith)
            (omega arith) (ground arith))
    | inr outside ↦ rw (found, write_loop, outside, store)
  ]
]

-- A buffer that starts in its window and does not fit it is written across the window's end.
pub write_dsp_memory_overrun :
    (m : DspMemory) (core_num a index : ℕ) (region : Region) (buffer : List ℕ) (n : ℕ)
    → locate core_num a ≡ some (region, index)
    → n ≡ length buffer * 4
    → index ≤ (window m region).size
    → (window m region).size < index + length buffer
    → write_dsp_memory m core_num a buffer n ≡ fault
unfolding write_dsp_memory write_at
write_dsp_memory_overrun m core_num a index region buffer n located e starts overruns =
    let some_left : (n == 0) ≡ false = ground arith in
    let count : n / 4 ≡ length buffer = omega arith in
    rw (
      some_left,
      located,
      write_at,
      count,
      write_loop_outside (length buffer) 0 index buffer (window m region) (omega arith) overruns
          starts,
    )

-- The same where an empty buffer, for which `writeDSPMemory` returns early, need not be located.
pub write_dsp_memory_words :
    (m : DspMemory) (core_num a index : ℕ) (region : Region) (buffer : List ℕ) (n : ℕ)
    → (0 < length buffer → locate core_num a ≡ some (region, index))
    → n ≡ length buffer * 4
    → index + length buffer ≤ (window m region).size
    → (k : ℕ) × (write_dsp_memory m core_num a buffer n
        ≡ done (overlay_memory m region index buffer, k))
unfolding write_dsp_memory
write_dsp_memory_words m core_num a index region [] n located e fits =
    let none_left : n ≡ 0 = omega arith in
    (0, rw none_left (ap (λ m'. done (m', 0)) (sym (overlay_none m region index))))
write_dsp_memory_words m core_num a index region (v ∷ vs) n located e fits =
    (n, write_dsp_memory_lem m core_num a index region (v ∷ vs) n (located (omega arith)) e fits)

-- A store keeps the sizes of all windows.
pub size-overlay_memory :
    (m : DspMemory) (region : Region) (index : ℕ) (vs : List ℕ) (q : Region)
    → (window (overlay_memory m region index vs) q).size ≡ (window m q).size
size-overlay_memory m in_ll2 index vs in_ll2 = refl
size-overlay_memory m in_ll2 index vs in_msmc = refl
size-overlay_memory m in_ll2 index vs in_ddr = refl
size-overlay_memory m in_msmc index vs in_ll2 = refl
size-overlay_memory m in_msmc index vs in_msmc = refl
size-overlay_memory m in_msmc index vs in_ddr = refl
size-overlay_memory m in_ddr index vs in_ll2 = refl
size-overlay_memory m in_ddr index vs in_msmc = refl
size-overlay_memory m in_ddr index vs in_ddr = refl

pub overlay_memory-append :
    (m : DspMemory) (region : Region) (index next : ℕ) (xs ys : List ℕ)
    → next ≡ index + length xs
    → overlay_memory (overlay_memory m region index xs) region next ys
      ≡ overlay_memory m region index (xs ++ ys)
overlay_memory-append m in_ll2 index next xs ys e =
    ap (λ f. record m { ll2 = record m.ll2 { word = f } }) (overlay-append _ index next xs ys e)
overlay_memory-append m in_msmc index next xs ys e =
    ap (λ f. record m { msmc = record m.msmc { word = f } }) (overlay-append _ index next xs ys e)
overlay_memory-append m in_ddr index next xs ys e =
    ap (λ f. record m { ddr = record m.ddr { word = f } }) (overlay-append _ index next xs ys e)
