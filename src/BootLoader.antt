-- ===== src/BootLoader.antt =====
-- src/bootLoader.c: putting a program into the DSP's memory and booting it.
pub mod Memory
pub mod Upload
pub mod Outbound
pub mod Boot
pub mod ThirdBl
pub mod App4Core0
