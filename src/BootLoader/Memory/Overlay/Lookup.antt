-- ===== src/BootLoader/Memory/Overlay/Lookup.antt =====
-- Reading a memory after words were laid over it.
use dspc8681_linux_driver.Base.{
  ℕ, zero, suc, ◌+◌, ◌≤◌, ◌<◌, ◌≡◌, ◌≢◌, ◌⊎◌, inl, inr, refl, sym, ap, ◌∙◌, arith, List, [], ◌∷◌,
  length, get_elem?, some,
}
use mathlib.Core.Path.{fun_ext}
use native.Mathlib.Decide.{dec_lt, dec_le}
use dspc8681_linux_driver.BootLoader.Memory.{DspMemory, Region, in_ll2, in_msmc, in_ddr, window}
use dspc8681_linux_driver.BootLoader.Memory.Overlay.{overlay, overlay_congr, overlay_memory}

-- A word is outside a run of words.
abbrev pub IsOutside : ℕ → ℕ → ℕ → Type 0
IsOutside j index n = (j < index) ⊎ (index + n ≤ j)

pub overlay_outside :
    (f : ℕ → ℕ) (index : ℕ) (vs : List ℕ) (j : ℕ)
    → IsOutside j index (length vs)
    → overlay f index vs j ≡ f j
unfolding overlay
overlay_outside f index [] j h = refl
overlay_outside f index (v ∷ vs) j (inl before) =
    ground (arith, overlay_outside f (index + 1) vs j (inl (omega arith)))
overlay_outside f index (v ∷ vs) j (inr behind) =
    ground (arith, overlay_outside f (index + 1) vs j (inr (omega arith)))

pub overlay_at :
    (f : ℕ → ℕ) (index : ℕ) (vs : List ℕ) (i w : ℕ)
    → get_elem? vs i ≡ some w
    → overlay f index vs (index + i) ≡ w
unfolding overlay
overlay_at f index [] i w h = cc
overlay_at f index (v ∷ vs) zero w h = ground (arith, h)
overlay_at f index (v ∷ vs) (suc i) w h = ground (arith, overlay_at f (index + 1) vs i w h)

-- Inside, what was there before does not matter.
pub overlay_inside :
    (f g : ℕ → ℕ) (index : ℕ) (vs : List ℕ) (j : ℕ)
    → index ≤ j
    → j < index + length vs
    → overlay f index vs j ≡ overlay g index vs j
unfolding overlay
overlay_inside f g index [] j p q = absurd (omega arith)
overlay_inside f g index (v ∷ vs) j p q = ground (arith, overlay_inside f g (index + 1) vs j)

-- Two runs that do not meet can be laid in either order.
overlay_comm_at :
    (f : ℕ → ℕ) (a b : ℕ) (xs ys : List ℕ) (j : ℕ)
    → (a + length xs ≤ b) ⊎ (b + length ys ≤ a)
    → overlay (overlay f a xs) b ys j ≡ overlay (overlay f b ys) a xs j
overlay_comm_at f a b xs ys j apart = elim (dec_lt j b) [
  | yes before ↦ over_xs (inl before)
  | no not_before ↦ elim (dec_le (b + length ys) j) [
    | yes behind ↦ over_xs (inr behind)
    | no not_behind ↦
        overlay_inside (overlay f a xs) f b ys j (omega arith) (omega arith)
        ∙ sym (overlay_outside (overlay f b ys) a xs j (not_in_xs (omega arith) (omega arith)))
  ]
]
  where
    over_xs :
        IsOutside j b (length ys)
        → overlay (overlay f a xs) b ys j ≡ overlay (overlay f b ys) a xs j
    over_xs h =
        overlay_outside (overlay f a xs) b ys j h
        ∙ overlay_congr f (overlay f b ys) a xs j (sym (overlay_outside f b ys j h))

    not_in_xs : b ≤ j → j < b + length ys → IsOutside j a (length xs)
    not_in_xs p q = elim apart [ inl low ↦ inr (omega arith) | inr high ↦ inl (omega arith) ]

pub overlay_comm :
    (f : ℕ → ℕ) (a b : ℕ) (xs ys : List ℕ)
    → (a + length xs ≤ b) ⊎ (b + length ys ≤ a)
    → overlay (overlay f a xs) b ys ≡ overlay (overlay f b ys) a xs
overlay_comm f a b xs ys apart = fun_ext λ j. overlay_comm_at f a b xs ys j apart

-- The word of a region.
abbrev pub word_of : DspMemory → Region → ℕ → ℕ
word_of m region j = (window m region).word j

pub overlay_memory_outside :
    (m : DspMemory) (region q : Region) (index j : ℕ) (vs : List ℕ)
    → (q ≢ region) ⊎ IsOutside j index (length vs)
    → word_of (overlay_memory m region index vs) q j ≡ word_of m q j
overlay_memory_outside m in_ll2 in_ll2 index j vs (inl other) = absurd (other refl)
overlay_memory_outside m in_msmc in_msmc index j vs (inl other) = absurd (other refl)
overlay_memory_outside m in_ddr in_ddr index j vs (inl other) = absurd (other refl)
overlay_memory_outside m in_ll2 in_ll2 index j vs (inr h) = overlay_outside m.ll2.word index vs j h
overlay_memory_outside m in_msmc in_msmc index j vs (inr h) =
    overlay_outside m.msmc.word index vs j h
overlay_memory_outside m in_ddr in_ddr index j vs (inr h) = overlay_outside m.ddr.word index vs j h
overlay_memory_outside m in_ll2 in_msmc index j vs h = refl
overlay_memory_outside m in_ll2 in_ddr index j vs h = refl
overlay_memory_outside m in_msmc in_ll2 index j vs h = refl
overlay_memory_outside m in_msmc in_ddr index j vs h = refl
overlay_memory_outside m in_ddr in_ll2 index j vs h = refl
overlay_memory_outside m in_ddr in_msmc index j vs h = refl

pub overlay_memory_at :
    (m : DspMemory) (region : Region) (index i w : ℕ) (vs : List ℕ)
    → get_elem? vs i ≡ some w
    → word_of (overlay_memory m region index vs) region (index + i) ≡ w
overlay_memory_at m in_ll2 index i w vs h = overlay_at m.ll2.word index vs i w h
overlay_memory_at m in_msmc index i w vs h = overlay_at m.msmc.word index vs i w h
overlay_memory_at m in_ddr index i w vs h = overlay_at m.ddr.word index vs i w h

pub overlay_memory_comm :
    (m : DspMemory) (region q : Region) (a b : ℕ) (xs ys : List ℕ)
    → (q ≢ region) ⊎ ((a + length xs ≤ b) ⊎ (b + length ys ≤ a))
    → overlay_memory (overlay_memory m region a xs) q b ys
      ≡ overlay_memory (overlay_memory m q b ys) region a xs
overlay_memory_comm m in_ll2 in_ll2 a b xs ys (inl other) = absurd (other refl)
overlay_memory_comm m in_msmc in_msmc a b xs ys (inl other) = absurd (other refl)
overlay_memory_comm m in_ddr in_ddr a b xs ys (inl other) = absurd (other refl)
overlay_memory_comm m in_ll2 in_ll2 a b xs ys (inr h) =
    ap (λ f. record m { ll2 = record m.ll2 { word = f } }) (overlay_comm m.ll2.word a b xs ys h)
overlay_memory_comm m in_msmc in_msmc a b xs ys (inr h) =
    ap (λ f. record m { msmc = record m.msmc { word = f } }) (overlay_comm m.msmc.word a b xs ys h)
overlay_memory_comm m in_ddr in_ddr a b xs ys (inr h) =
    ap (λ f. record m { ddr = record m.ddr { word = f } }) (overlay_comm m.ddr.word a b xs ys h)
overlay_memory_comm m in_ll2 in_msmc a b xs ys h = refl
overlay_memory_comm m in_ll2 in_ddr a b xs ys h = refl
overlay_memory_comm m in_msmc in_ll2 a b xs ys h = refl
overlay_memory_comm m in_msmc in_ddr a b xs ys h = refl
overlay_memory_comm m in_ddr in_ll2 a b xs ys h = refl
overlay_memory_comm m in_ddr in_msmc a b xs ys h = refl
