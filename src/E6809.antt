-- ===== src/E6809.antt =====
-- The 6809 processor. Code: emulators/e6809.c, and the memory of emulators/emu6809.c.
pub mod State
pub mod Bus
pub mod Flags
pub mod Alu
pub mod Address
pub mod Stack
pub mod Transfer
pub mod Cases
pub mod Step
pub mod Valid
mod Examples
