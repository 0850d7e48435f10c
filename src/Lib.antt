-- ===== src/Lib.antt =====
-- The host driver of the DSPC8681 card: four C6678 DSPs behind PCIe.
--
-- Parts of the program, and the files that model them. Paths are from the root of the repository.
-- * src/crc32.c, inc/crc32_table.h (Crc): crc32_getCrc is crc32_get_crc, and so on; the table is
--   crc32_table. Crc/Shift has the bit-by-bit register, Crc/Stream the step functions, Crc/Detect
--   the detection of errors.
-- * src/common.c (Common): byteTo32bits and the polling loops. A polled word is a function of the
--   round, since the DSP may change it between two reads.
-- * src/bootLoader.c (BootLoader): BootLoader/Memory is writeDSPMemory on the three windows that
--   PCI_readBAR maps, BootLoader/Upload is uploadProgram, which calls it for each block of a section,
--   BootLoader/Outbound is dspMemoryMap and BootLoader/Boot is bootLoader, which calls both and then
--   pushes the images of the cores through the shared register table.
-- * inc/DSP_TBL_6678.h (BootLoader/ThirdBl) and inc/app4Core0_6678.h (BootLoader/App4Core0): the boot
--   table and the image of core 0 that the driver is built with, byte for byte. A number stands for
--   one line of the first file and for six of the second.
-- * inc/DPURegs.h (Registers): offsets of the application registers, and writes to them.
-- * src/LinkLayer.c, inc/LinkLayer.h (LinkLayer): the register table behind gpRegisterTable, which
--   bootLoader fills, the buffers behind it, and the handshake of a transfer.
-- * src/pcie.c (Pcie): finding the chips, mapping their windows, and the inbound translation that
--   decides where the words of writeDSPMemory arrive.
-- * src/entry.c (Entry): Entry/Init is init_module, which calls the functions of src/pcie.c and then
--   bootLoader. Entry itself is the driver behind it, for one chip: DPU_ioctl, which calls LinkLayer
--   and waits for semaphores, and ISR_handler. A step of the driver is a call that returns, an
--   interrupt, or a change of the register table by the DSP or by a program that has mapped it. It
--   starts from the semaphores and the register writes that init_module leaves.
--   Entry/Files is DPU_open, which calls LinkLayer_Open, DPU_mmap, and DPU_close, which calls
--   LinkLayer_Close.
-- * Base has the shared types and lemmas: words, lists, the outcome of a run, and the laws of the
--   bit operations. Tests has the theorems at concrete inputs.
--
-- State and conventions. Integers are natural numbers with the reduction to 32 bits written out. A
-- pointer into an array is the rest of the array, or an index. Run is the outcome of code that reads
-- and writes memory: done with a result, fault for an access outside an array or a window, and spent
-- for a loop that has run out of fuel. The only loop on fuel is that over the sections of a boot
-- table: more rounds than sections are enough, and for any image one round for each eight bytes.
-- The loops with a bound, the polling loops among them, are structural recursion on what is left.
-- What the DSP does is a parameter of bootLoader: a function of what the host did before it. An image
-- is copied to an address in the DMA zone of DMA_TRANSFER_SIZE bytes, whose words are not modelled.
-- The addresses that dma_alloc_coherent and ioremap give, the devices that pci_get_device gives, and
-- the images of the cores other than core 0 are parameters.
--
-- Not modelled: printing, and what the kernel does with a registered device, interrupt handler or
-- character device. DPU_probe and DPU_release of src/entry.c stand in a structure that nothing
-- registers, and cleanup_module is empty. inc/DPUCore1_6678.h and inc/DPUCore2_6678.h, with the images
-- of the other cores, are not in the repository. What request_mem_region and request_region return is
-- not looked at by the code, nor is what kzalloc, cdev_alloc, cdev_add, pci_enable_device and
-- request_irq return: they are taken to succeed. The code between #if 0 and #endif is not part of the
-- program. dma_alloc_coherent is taken to succeed too: the code does not test for it. ioremap is not:
-- it may give NULL, which the code does not test for, and an access through that pointer is a fault.
-- The argument of an ioctl may point to memory that can be read, or not; where a buffer status goes
-- to is not tested by the code.
pub mod Base
pub mod BootLoader
pub mod Common
pub mod Crc
pub mod Entry
pub mod LinkLayer
pub mod Pcie
pub mod Registers
pub mod Tests
