-- ===== src/Oracle6502.antt =====
-- crates/oracle_6502: the 2A03 interpreter that serves as the reference of differential tests.
pub mod Cpu
pub mod Machine
pub mod Address
pub mod Execute
pub mod Step
mod Tests
pub mod Status
pub mod Arithmetic
pub mod Registers
pub mod Hoare
pub mod Safety
pub mod Execution
pub mod Families
pub mod Running
pub mod Total
pub mod Stack
pub mod Budget
pub mod Control
