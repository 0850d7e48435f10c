-- ===== src/BootLoader/Boot/Address.antt =====
-- Where `bootLoader` puts the register table in the DMA zone, and whether the outbound window starts
-- there.
use dspc8681_linux_driver.Base.{ℕ, ◌+◌, ◌*◌, ◌/◌, ◌%◌, ◌^◌, ◌≡◌, ◌↔◌, ap, arith, IsWord, some}
use dspc8681_linux_driver.Base.Bits.{bit_and_field}
use dspc8681_linux_driver.Registers.{written, ob_offset_index}
use dspc8681_linux_driver.BootLoader.Outbound.{dsp_memory_map}
use dspc8681_linux_driver.BootLoader.Outbound.Cover.{dsp_memory_map_index}
use dspc8681_linux_driver.BootLoader.Boot.{align_phy_addr, addr_map}

pub align_phy_addr_lem : (a : ℕ) → IsWord a → align_phy_addr a ≡ a / 2 ^ 20 * 2 ^ 20
align_phy_addr_lem a h = omega (arith, bit_and_field 12 20 a)

-- The register table is at the start of the DMA zone exactly when the zone's physical address is a
-- multiple of a megabyte.
pub addr_map-start_iff :
    (dma_vir_addr dma_phy_addr : ℕ)
    → IsWord dma_vir_addr
    → IsWord dma_phy_addr
    → (addr_map dma_vir_addr dma_phy_addr ≡ dma_vir_addr) ↔ (dma_phy_addr % 2 ^ 20 ≡ 0)
unfolding addr_map
addr_map-start_iff dma_vir_addr dma_phy_addr hv hp =
    rw (align_phy_addr_lem dma_phy_addr hp) (λ e. omega arith, λ e. omega arith)

-- The outbound window of `bootLoader` starts at the register table exactly when the megabyte that
-- the table is in is a multiple of four.
pub dsp_memory_map-start_iff :
    (dma_phy_addr : ℕ)
    → IsWord dma_phy_addr
    → (written (dsp_memory_map (align_phy_addr dma_phy_addr) 0x400000).0 (ob_offset_index 0)
        ≡ some (align_phy_addr dma_phy_addr + 1))
      ↔ (dma_phy_addr / 2 ^ 20 % 4 ≡ 0)
dsp_memory_map-start_iff dma_phy_addr hp =
    rw (dsp_memory_map_index (align_phy_addr dma_phy_addr) (omega (arith, aligned)), aligned)
      (λ e. ground (arith, e), λ e. ap some (omega arith))
  where
    aligned : align_phy_addr dma_phy_addr ≡ dma_phy_addr / 2 ^ 20 * 2 ^ 20
    aligned = align_phy_addr_lem dma_phy_addr hp
