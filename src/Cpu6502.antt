-- ===== src/Cpu6502.antt =====
-- crates/cpu6502: the instruction set, the opcode table, the decoder and the timing classes.
pub mod Isa
pub mod Table
pub mod Decode
pub mod Timing
pub mod Encoding
mod Tests
