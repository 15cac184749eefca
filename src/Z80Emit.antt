-- ===== src/Z80Emit.antt =====
-- crates/z80_emit: the encoder of Z80 code, with its sections, labels and patches.
pub mod Section
pub mod Program
pub mod Encode
pub mod Loads
pub mod Arithmetic
pub mod Logic
pub mod Moves
pub mod Control
pub mod Transfers
pub mod Methods
pub mod Executed
pub mod Finish
pub mod Sections
pub mod Placed
pub mod Built
pub mod Patching
pub mod Linking
mod Tests
