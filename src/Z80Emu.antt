-- ===== src/Z80Emu.antt =====
-- crates/z80_emu: the Z80 interpreter that runs the code that the back end emits.
pub mod Cpu
pub mod Machine
pub mod Shifts
pub mod Low
pub mod High
pub mod Block
pub mod Extended
pub mod Step
pub mod Bounds
pub mod Registers
pub mod Hoare
pub mod Safety
pub mod LowSafety
pub mod HighSafety
pub mod ExtendedSafety
pub mod Flags
pub mod Arithmetic
pub mod Stack
pub mod BlockStep
pub mod BlockCopy
pub mod Rotations
mod Tests
