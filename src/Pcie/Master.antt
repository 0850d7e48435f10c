-- ===== src/Pcie/Master.antt =====
-- The bits that `PCI_setMaster` sets and clears in the command word.
use dspc8681_linux_driver.Base.{
  ℕ, ◌<◌, ◌≡◌, refl, arith, true, ◌==◌, ◌&&◌, ◌||◌, all_below, all_below_sound, if◌then◌else◌,
  bit_and, bit_or, pos, some,
}
use dspc8681_linux_driver.Base.Bits.{bit, bit-bit_and, bit-bit_or}
use dspc8681_linux_driver.Pcie.{pci_set_master}

-- `PCI_COMMAND_MEMORY`, `PCI_COMMAND_MASTER` and `PCI_COMMAND_SERR` are the bits 1, 2 and 8, and
-- `PCI_COMMAND_INTX_DISABLE` is bit 10.
abbrev pub command_bit : ℕ → ℕ → ℕ
command_bit cmd_val k =
    if k == 1 || (k == 2 || k == 8) then 1 else (if k == 10 then 0 else bit cmd_val k)

mask_check :
    all_below 16 (λ k.
      (bit 0x106 k == (if k == 1 || (k == 2 || k == 8) then 1 else 0))
      && (bit 0xFBFF k == (if k == 10 then 0 else 1)))
    ≡ true
unfolding all_below
mask_check = refl

masks :
    (k : ℕ)
    → k < 16
    → (bit 0x106 k ≡ (if k == 1 || (k == 2 || k == 8) then 1 else 0))
      × (bit 0xFBFF k ≡ (if k == 10 then 0 else 1))
masks k h = ground (arith, all_below_sound 16 _ k mask_check h)

-- When `pci_set_mwi` succeeds, `PCI_setMaster` returns 0 and writes a command word with the bits for
-- memory, bus master and SERR set, that which disables interrupts clear, and every other of the 16
-- bits as it was read.
pub pci_set_master-command_bit :
    (cmd_val k : ℕ)
    → k < 16
    → (w : ℕ) × (pci_set_master (pos 0) cmd_val ≡ (some w, pos 0))
      × (bit w k ≡ command_bit cmd_val k)
unfolding pci_set_master
pci_set_master-command_bit cmd_val k h = (
  bit_and (bit_or cmd_val (bit_or (bit_or 0x2 0x4) 0x100)) 0xFBFF,
  refl,
  rw (bit-bit_and (bit_or cmd_val 0x106) 0xFBFF k, bit-bit_or cmd_val 0x106 k)
      (ground (arith, masks k h)),
)
