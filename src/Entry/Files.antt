-- ===== src/Entry/Files.antt =====
-- `DPU_open` and `DPU_mmap` of src/entry.c.
use dspc8681_linux_driver.Base.{
  ℕ, ◌+◌, ◌-◌, ◌^◌, ◌<◌, ◌≡◌, ◌≢◌, ◌∷◌, [], ◌⊎◌, inl, inr, refl, arith, Bool, true, false, u32, ◌∙◌,
  ◌==◌, shr, ℤ, pos, negsuc, List, get_elem?, Option, none, some, Run, done, fault, ◌>>=◌, or_fault,
}
use dspc8681_linux_driver.LinkLayer.{
  LinkLayerHandler, handler_at, link_layer_open, link_layer_close,
}
use dspc8681_linux_driver.LinkLayer.Layout.{
  Layout, nonnull, link_layer_open-Layout, link_layer_close-nonnull,
}

-- What `DPU_open` and `LinkLayer_Open` use of `ProcessorUnitDev_t`: `devMinor`, and `regVirt` of
-- `pPciBarReg`.
pub record ProcessorUnitDev : Type 0 where
  pub dev_minor : ℕ
  pub reg_virt : ℕ

-- `DPU_open`, with whether `kmalloc` gives memory, `g_pProcessorUnitDev`, where `none` is `NULL`,
-- and `gpRegisterTable`: `private_data` after it, if it is set, and the value returned.
pub dpu_open :
    Bool → List (Option ProcessorUnitDev) → List ℕ → ℕ → Run (Option LinkLayerHandler × ℤ)
dpu_open false g_processor_unit_dev gp_register_table chip_index = do
  unit ← or_fault (get_elem? g_processor_unit_dev chip_index)
  done (none, negsuc 0)
dpu_open true g_processor_unit_dev gp_register_table chip_index = do
  unit ← or_fault (get_elem? g_processor_unit_dev chip_index)
  dev ← or_fault unit
  (handle, ret_link_value) ← link_layer_open gp_register_table dev.dev_minor dev.reg_virt
  done (some handle, ret_link_value)

-- The test of `stateCode` in `DPU_mmap`.
pub mmap_result : ℤ → ℤ
mmap_result (pos n) = pos n
mmap_result (negsuc n) = pos 0

-- `DPU_mmap`, with `virt_to_phys` and `remap_pfn_range`, which takes the start, the frame and the
-- length. The kernel gives `vm_start <= vm_end`.
pub dpu_mmap : (ℕ → ℕ) → (ℕ → ℕ → ℕ → ℤ) → LinkLayerHandler → ℕ → ℕ → ℤ
unfolding mmap_result
dpu_mmap virt_to_phys remap_pfn_range handle vm_start vm_end = mmap_result (
    remap_pfn_range vm_start (shr (u32 (virt_to_phys handle.p_register_table)) 12)
      (u32 (vm_end - vm_start)))

-- `DPU_close` hands the handler itself to `LinkLayer_Close` as if it were an array of handlers: its
-- words, in the order of the structure.
abbrev pub handler_words : LinkLayerHandler → List ℕ
handler_words h =
    h.p_register_table ∷ h.p_out_buffer ∷ h.p_in_buffer ∷ h.out_buffer_length ∷ h.in_buffer_length
    ∷ h.p_write_confirm_reg ∷ h.p_read_confirm_reg ∷ []

pub dpu_close : LinkLayerHandler → Run (List ℕ)
dpu_close private_data = link_layer_close (handler_words private_data)

-- Opening a chip that `init_module` has set up, whose table stands at a 32-bit address with four
-- megabytes behind it, returns 0 with a handler whose buffers follow each other in them.
pub dpu_open-Layout :
    (g_processor_unit_dev : List (Option ProcessorUnitDev)) (gp_register_table : List ℕ)
    (chip_index base : ℕ) (dev : ProcessorUnitDev)
    → get_elem? g_processor_unit_dev chip_index ≡ some (some dev)
    → get_elem? gp_register_table dev.dev_minor ≡ some base
    → base + 0x400000 < 2 ^ 32
    → (h : LinkLayerHandler) × (dpu_open true g_processor_unit_dev gp_register_table chip_index
        ≡ done (some h, pos 0))
      × Layout base h
unfolding dpu_open
dpu_open-Layout g_processor_unit_dev gp_register_table chip_index base dev found table fits =
    let (h, opened, layout) =
      link_layer_open-Layout gp_register_table dev.dev_minor dev.reg_virt base table fits in
    (h, rw (found, opened) refl, layout)

-- `DPU_mmap` returns 0 whether `remap_pfn_range`, which returns 0 or a negative error, succeeds or
-- fails.
pub dpu_mmap-0 :
    (virt_to_phys : ℕ → ℕ) (remap_pfn_range : ℕ → ℕ → ℕ → ℤ) (handle : LinkLayerHandler)
    (vm_start vm_end : ℕ)
    → ((start frame n : ℕ)
        → (remap_pfn_range start frame n ≡ pos 0)
          ⊎ ((e : ℕ) × (remap_pfn_range start frame n ≡ negsuc e)))
    → dpu_mmap virt_to_phys remap_pfn_range handle vm_start vm_end ≡ pos 0
unfolding dpu_mmap
dpu_mmap-0 virt_to_phys remap_pfn_range handle vm_start vm_end returns =
    elim (returns vm_start (shr (u32 (virt_to_phys handle.p_register_table)) 12)
      (u32 (vm_end - vm_start))) [
        | inl finished ↦ rw finished refl
        | inr (e, failed) ↦ rw failed refl
      ]

-- Opening a chip that has no unit goes through a null pointer, or past the end of the array.
pub dpu_open_null :
    (g_processor_unit_dev : List (Option ProcessorUnitDev)) (gp_register_table : List ℕ)
    (chip_index : ℕ)
    → (get_elem? g_processor_unit_dev chip_index ≡ some none)
      ⊎ (get_elem? g_processor_unit_dev chip_index ≡ none)
    → dpu_open true g_processor_unit_dev gp_register_table chip_index ≡ fault
unfolding dpu_open
dpu_open_null g_processor_unit_dev gp_register_table chip_index (inl null) = rw null refl
dpu_open_null g_processor_unit_dev gp_register_table chip_index (inr outside) = rw outside refl

-- Closing a chip that was opened, whose table is not at address 0 and has four megabytes of 32-bit
-- addresses behind it: what is passed to `kfree` is the register table, the two buffers behind it
-- in the DMA zone, and the length of the first; the handler that `DPU_open` allocated is not.
pub dpu_close-dpu_open :
    (g_processor_unit_dev : List (Option ProcessorUnitDev)) (gp_register_table : List ℕ)
    (chip_index base : ℕ) (dev : ProcessorUnitDev)
    → get_elem? g_processor_unit_dev chip_index ≡ some (some dev)
    → get_elem? gp_register_table dev.dev_minor ≡ some base
    → base + 0x400000 < 2 ^ 32
    → base ≢ 0
    → (h : LinkLayerHandler) × (dpu_open true g_processor_unit_dev gp_register_table chip_index
        ≡ done (some h, pos 0))
      × (dpu_close h ≡ done (base ∷ (base + 0x2000) ∷ (base + 0x4000) ∷ 0x2000 ∷ []))
unfolding dpu_open dpu_close nonnull link_layer_open
dpu_close-dpu_open g_processor_unit_dev gp_register_table chip_index base dev found table fits
      some_base =
    let out : u32 (base + 0x2000) ≡ base + 0x2000 = omega arith in
    let in_ : u32 (u32 (base + 0x2000) + 0x2000) ≡ base + 0x4000 = omega arith in
    let first : (base == 0) ≡ false = ground arith in
    let second : (u32 (base + 0x2000) == 0) ≡ false = ground arith in
    let third : (u32 (u32 (base + 0x2000) + 0x2000) == 0) ≡ false = ground arith in
    (
      handler_at base dev.reg_virt,
      rw (found, table) refl,
      link_layer_close-nonnull (handler_words (handler_at base dev.reg_virt)) (omega arith)
          ∙ rw (first, second, third, in_, out) refl,
    )
