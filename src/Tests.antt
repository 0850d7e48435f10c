-- ===== src/Tests.antt =====
-- The theorems at concrete inputs, by the part of the program.
mod Data
mod Checksum
mod Polling
mod Init
mod Memory
mod Boot
mod Link
mod Bus
mod Device
