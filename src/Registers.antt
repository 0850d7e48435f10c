-- ===== src/Registers.antt =====
-- inc/DPURegs.h: byte offsets of the PCIe application registers, and the writes to them. A register
-- is reached as `pReg + offset / 4` through a pointer to 32-bit words.
use dspc8681_linux_driver.Base.{
  ℕ, ◌+◌, ◌*◌, ◌/◌, ◌==◌, if◌then◌else◌, List, [], ◌∷◌, Option, none, some,
}

abbrev pub pcie_base_address : ℕ
pcie_base_address = 0x21800000

abbrev pub ob_size : ℕ
ob_size = 0x30

abbrev pub ep_irq_clr : ℕ
ep_irq_clr = 0x68

abbrev pub ep_irq_status : ℕ
ep_irq_status = 0x6C

abbrev pub ob_offset_index : ℕ → ℕ
ob_offset_index n = 0x200 + 8 * n

abbrev pub ob_offset_hi : ℕ → ℕ
ob_offset_hi n = 0x204 + 8 * n

abbrev pub ib_bar : ℕ → ℕ
ib_bar n = 0x300 + 0x10 * n

abbrev pub ib_start_lo : ℕ → ℕ
ib_start_lo n = 0x304 + 0x10 * n

abbrev pub ib_start_hi : ℕ → ℕ
ib_start_hi n = 0x308 + 0x10 * n

abbrev pub ib_offset : ℕ → ℕ
ib_offset n = 0x30C + 0x10 * n

abbrev pub legacy_a_irq_status_raw : ℕ
legacy_a_irq_status_raw = 0x180

abbrev pub legacy_a_irq_enable_set : ℕ
legacy_a_irq_enable_set = 0x188

abbrev pub legacy_a_irq_enable_clr : ℕ
legacy_a_irq_enable_clr = 0x18C

abbrev pub legacy_b_irq_status_raw : ℕ
legacy_b_irq_status_raw = 0x190

abbrev pub legacy_b_irq_enable_set : ℕ
legacy_b_irq_enable_set = 0x198

abbrev pub legacy_b_irq_enable_clr : ℕ
legacy_b_irq_enable_clr = 0x19C

-- `iowrite32(value, pReg + offset / 4)`.
pub record IoWrite : Type 0 where
  pub word : ℕ
  pub value : ℕ

abbrev pub iowrite32 : ℕ → ℕ → IoWrite
iowrite32 value offset = record { word = offset / 4; value = value }

-- What a list of writes, the first one first, leaves in a register; `none` is one not written.
unfoldable pub written : List IoWrite → ℕ → Option ℕ
written [] offset = none
written (w ∷ ws) offset = elim (written ws offset) [
  | some v ↦ some v
  | none ↦ if w.word == offset / 4 then some w.value else none
]
