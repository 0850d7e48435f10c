-- ===== src/LinkLayer/Layout.antt =====
-- Where the buffers lie in the DMA zone, and which handlers are freed.
use dspc8681_linux_driver.Base.{
  ℕ, ◌+◌, ◌^◌, ◌≤◌, ◌<◌, ◌≡◌, refl, arith, suc, zero, inl, inr, ◌≢◌, none, length, take, drop,
  get_elem?-drop, get_elem?-some, pos, List, [], ◌∷◌, get_elem?, some, done, ◌==◌, if◌then◌else◌,
}
use native.Mathlib.Numerals.{add-one}
use dspc8681_linux_driver.LinkLayer.{
  LinkLayerHandler, handler_at, link_layer_open, close_loop, link_layer_close, register_table_size,
}

-- The table, the output buffer and the input buffer follow each other and end with the zone of
-- four megabytes.
pub record Layout (base : ℕ) (h : LinkLayerHandler) : Type 0 where
  pub table_first : h.p_register_table ≡ base
  pub then_out : h.p_out_buffer ≡ h.p_register_table + register_table_size
  pub then_in : h.p_in_buffer ≡ h.p_out_buffer + h.out_buffer_length
  pub ends_at : h.p_in_buffer + h.in_buffer_length ≡ base + 0x400000

-- `LinkLayer_Open` on a chip whose table stands at a 32-bit address with four megabytes behind it
-- returns 0, and the table, the output buffer and the input buffer follow each other and end four
-- megabytes behind the table's start.
pub link_layer_open-Layout :
    (gp_register_table : List ℕ) (chip_index reg_virt base : ℕ)
    → get_elem? gp_register_table chip_index ≡ some base
    → base + 0x400000 < 2 ^ 32
    → (h : LinkLayerHandler) × (link_layer_open gp_register_table chip_index reg_virt
        ≡ done (h, pos 0))
      × Layout base h
unfolding link_layer_open
link_layer_open-Layout gp_register_table chip_index reg_virt base found fits = (
  handler_at base reg_virt,
  rw found refl,
  record {
    table_first = refl;
    then_out = omega arith;
    then_in = omega arith;
    ends_at = omega arith;
  },
)

-- The handlers that are not null, in order.
unfoldable pub nonnull : List ℕ → List ℕ
nonnull [] = []
nonnull (p ∷ ps) = if p == 0 then nonnull ps else p ∷ nonnull ps

close_loop_lem :
    (left chip_index : ℕ) (p_handle : List ℕ)
    → chip_index + left ≤ length p_handle
    → close_loop left chip_index p_handle ≡ done (nonnull (take left (drop chip_index p_handle)))
unfolding close_loop nonnull
close_loop_lem zero chip_index p_handle h = refl
close_loop_lem (suc left) chip_index p_handle h = elim (get_elem?-drop p_handle chip_index) [
  | inl (missing, _) ↦ absurd (in_range missing)
  | inr (p, found, rest) ↦
      rw
        (
          found,
          rest,
          close_loop,
          close_loop_lem left (chip_index + 1) p_handle (omega arith),
          add-one chip_index,
        )
        refl
]
  where
    in_range : get_elem? p_handle chip_index ≢ none
    in_range missing = let (v, found) = get_elem?-some p_handle chip_index (omega arith) in cc

-- `LinkLayer_Close` on four handlers or more frees each of the first four that is not null, once
-- and in order.
pub link_layer_close-nonnull :
    (p_handle : List ℕ)
    → 4 ≤ length p_handle
    → link_layer_close p_handle ≡ done (nonnull (take 4 p_handle))
unfolding link_layer_close
link_layer_close-nonnull p_handle h = close_loop_lem 4 0 p_handle h
