-- ===== src/Entry/Init.antt =====
-- `init_module` of src/entry.c, with what the kernel and the hardware give as parameters. What
-- `kzalloc`, `cdev_alloc`, `cdev_add`, `pci_enable_device` and `request_irq` return is not looked at
-- by the code; they are taken to succeed.
pub mod Alloc
pub mod Booted
pub mod Boards
pub mod Config
pub mod Shipped
pub mod Unmapped
use dspc8681_linux_driver.Base.{
  ℕ, zero, suc, ◌+◌, ◌-◌, ◌/◌, ltb, ◌==◌, if◌then◌else◌, true, false, ℤ, pos, negsuc, List, [], ◌∷◌,
  ◌++◌, length, get_elem?, set, replicate, Option, none, some, Run, done, fault, ◌>>=◌, or_fault,
}
use dspc8681_linux_driver.Registers.{IoWrite}
use dspc8681_linux_driver.BootLoader.Boot.{
  Dsp, Images, Event, mapped, pushed, copied, polled, Host, is_0, boot_loader,
}
use dspc8681_linux_driver.Pcie.{
  PciDev, pci_find_pci_devices, Bar, PcieBarReg, pci_read_bar, pci_set_master, pci_set_in_bound,
  pci_enable_dsp_interrupt,
}
use dspc8681_linux_driver.Entry.Files.{ProcessorUnitDev}

-- What a chip brings: its base address registers, what `pci_set_mwi` returns and the command word,
-- the two addresses of `dma_alloc_coherent`, the words of its memories, and its behaviour.
pub record Board : Type 0 where
  pub bar0 : Bar
  pub bar1 : Bar
  pub bar2 : Bar
  pub bar3 : Bar
  pub mwi : ℤ
  pub command : ℕ
  pub dma_vir_addr : ℕ
  pub dma_phy_addr : ℕ
  pub ll2_word : ℕ → ℕ
  pub msmc_word : ℕ → ℕ
  pub ddr_word : ℕ → ℕ
  pub dsp : Dsp

-- `writeSemaphore`, `readSemaphore` and `gDspDpmOverSemaphore` of a chip.
pub record Semaphores : Type 0 where
  pub write : ℕ
  pub read : ℕ
  pub dsp_dpm_over : ℕ

-- The global arrays of four entries, by chip; `none` is `NULL`, or a semaphore that was not made.
-- `cdev` has the minor numbers that were added, the latest first, and `hosts` what `bootLoader`
-- left on each chip that it was called for. The writes to the command word and to the application
-- registers are listed by chip.
pub record Driver : Type 0 where
  pub pcie_dev : List PciDev
  pub pcie_bar_reg : List (Option PcieBarReg)
  pub semaphores : List (Option Semaphores)
  pub cdev : List ℕ
  pub processor_unit_dev : List (Option ProcessorUnitDev)
  pub register_table : List ℕ
  pub command_writes : List (ℕ × Option ℕ)
  pub register_writes : List (ℕ × List IoWrite)
  pub hosts : List (ℕ × Host)

abbrev pub four {ℓ} : {A : Type ℓ} → A → List A
four a = a ∷ a ∷ a ∷ a ∷ []

abbrev pub unloaded : Driver
unloaded = record {
  pcie_dev = [];
  pcie_bar_reg = four none;
  semaphores = four none;
  cdev = [];
  processor_unit_dev = four none;
  register_table = four 0;
  command_writes = [];
  register_writes = [];
  hosts = [];
}

-- `a[i] = v`.
abbrev pub set_at {ℓ} : {A : Type ℓ} → List A → ℕ → A → Run (List A)
set_at a i v = if ltb i (length a) then done (set a i v) else fault

-- `kzalloc(sizeof(pcieBarReg_t))`.
abbrev pub zeroed_bar_reg : PcieBarReg
zeroed_bar_reg = record {
  reg_virt = 0;
  mem_virt = 0;
  msmc_virt = 0;
  ddr_virt = 0;
  reg_base = 0;
  mem_base = 0;
  msmc_base = 0;
  ddr_base = 0;
  mem_len = 0;
  reg_len = 0;
  msmc_len = 0;
  ddr_len = 0;
}

-- The first loop, with `left` chips to go.
pub alloc_loop : ℕ → ℕ → Driver → Run Driver
alloc_loop zero chip_index d = done d
alloc_loop (suc left) chip_index d = do
  bar_regs ← set_at d.pcie_bar_reg chip_index (some zeroed_bar_reg)
  semaphores ←
      set_at d.semaphores chip_index (some (record { write = 0; read = 0; dsp_dpm_over = 0 }))
  alloc_loop left (chip_index + 1) (record d { pcie_bar_reg = bar_regs; semaphores = semaphores })

-- The words that can be reached through a pointer that `ioremap` gave for `len` bytes: none through
-- `NULL`.
abbrev pub mapped_words : ℕ → ℕ → ℕ
mapped_words virt len = if virt == 0 then 0 else len / 4

-- The memory behind the pointers of a `pcieBarReg_t`, of as many words as were mapped.
abbrev pub host_of : Board → PcieBarReg → List ℕ → Host
host_of b r register_table = record {
  memory = record {
    ll2 = record { size = mapped_words r.mem_virt r.mem_len; word = b.ll2_word };
    msmc = record { size = mapped_words r.msmc_virt r.msmc_len; word = b.msmc_word };
    ddr = record { size = mapped_words r.ddr_virt r.ddr_len; word = b.ddr_word };
  };
  register_table = register_table;
  events = [];
}

-- `resource[i].start`.
abbrev pub resource_start : Board → ℕ → ℕ
resource_start b zero = b.bar0.start
resource_start b (suc zero) = b.bar1.start
resource_start b (suc (suc zero)) = b.bar2.start
resource_start b (suc (suc (suc i))) = b.bar3.start

-- A round of the second loop goes on with `retValue`, or returns it from `init_module`.
pub data Round : Type 0 where
  goes_on : Driver → ℤ → Round
  returns : Driver → ℤ → Round

-- The writes of `bootLoader` to the application registers, in order.
pub boot_writes : List Event → List IoWrite
boot_writes [] = []
boot_writes (mapped ws ∷ es) = boot_writes es ++ ws
boot_writes (pushed v ∷ es) = boot_writes es
boot_writes (copied address bytes ∷ es) = boot_writes es
boot_writes (polled ∷ es) = boot_writes es

-- The pointer that the registers are written through; a write through `NULL` is a fault.
pub reg_pointer : PcieBarReg → Run ℕ
reg_pointer r = if r.reg_virt == 0 then fault else done r.reg_virt

-- The second loop's body behind `PCI_readBAR`, which has filled `r`. What `PCI_setMaster` returns
-- is overwritten, and a chip that does not boot is passed over.
pub start_chip : ℕ → Images → Board → ℕ → PcieBarReg → Driver → Run Round
start_chip fuel images b chip_index r d = do
  reg_virt ← reg_pointer r
  units ←
      set_at d.processor_unit_dev chip_index
        (some (record { dev_minor = chip_index; reg_virt = reg_virt }))
  (host, ret_value) ←
      boot_loader fuel b.dsp images b.dma_vir_addr b.dma_phy_addr chip_index
        (host_of b r d.register_table)
  done (
      goes_on
        (record d {
          processor_unit_dev = units;
          register_table = host.register_table;
          command_writes = (chip_index, (pci_set_master b.mwi b.command).0) ∷ d.command_writes;
          register_writes =
              (
                chip_index,
                pci_set_in_bound (resource_start b)
                    ++ (pci_enable_dsp_interrupt ++ boot_writes host.events),
              )
              ∷ d.register_writes;
          hosts = (chip_index, host) ∷ d.hosts;
        })
        ret_value)

-- The second loop's body, with what `PCI_readBAR` gives for the chip.
pub open_chip : ℕ → Images → Board → ℕ → PcieBarReg × ℤ → Driver → Run Round
open_chip fuel images b chip_index (r, ret_value) d = do
  bar_regs ← set_at d.pcie_bar_reg chip_index (some r)
  let added : Driver = record d { cdev = chip_index ∷ d.cdev; pcie_bar_reg = bar_regs }
  elim (is_0 ret_value) [
    | true ↦ start_chip fuel images b chip_index r added
    | false ↦ done (returns added ret_value)
  ]

pub init_round : ℕ → Images → (ℕ → ℕ → ℕ) → List Board → ℕ → Driver → Run Round
init_round fuel images ioremap boards chip_index d = do
  b ← or_fault (get_elem? boards chip_index)
  allocated ← or_fault (get_elem? d.pcie_bar_reg chip_index)
  zeroed ← or_fault allocated
  open_chip fuel images b chip_index (pci_read_bar ioremap b.bar0 b.bar1 b.bar2 b.bar3 zeroed) d

pub init_loop : ℕ → Images → (ℕ → ℕ → ℕ) → List Board → ℕ → ℕ → Driver → ℤ → Run (Driver × ℤ)
init_loop fuel images ioremap boards zero chip_index d ret_value = done (d, ret_value)
init_loop fuel images ioremap boards (suc left) chip_index d ret_value =
    init_round fuel images ioremap boards chip_index d >>= λ round. elim round [
      | goes_on d' r ↦ init_loop fuel images ioremap boards left (chip_index + 1) d' r
      | returns d' r ↦ done (d', r)
    ]

-- `init_module`, with what `alloc_chrdev_region` returns. The second loop runs up to chip 0 alone.
pub init_module : ℕ → Images → (ℕ → ℕ → ℕ) → List PciDev → List Board → ℤ → Run (Driver × ℤ)
init_module fuel images ioremap devs boards region = do
  (found, pci_dev_count, ret_value) ← pci_find_pci_devices 4 devs 0
  let listed : Driver = record unloaded { pcie_dev = found }
  elim (is_0 ret_value) [
    | false ↦ done (listed, ret_value)
    | true ↦ alloc_loop pci_dev_count 0 listed >>= λ allocated. elim (is_0 region) [
      | false ↦ done (allocated, region)
      | true ↦ init_loop fuel images ioremap boards 1 0 allocated region
    ]
  ]
