-- ===== src/NesRom.antt =====
-- crates/nes_rom: ROM headers, mapper policies and cartridge boards.
pub mod Header
pub mod Image
pub mod Policy
pub mod Vectors
pub mod Windows
pub mod Selected
pub mod Banks
pub mod Axrom
pub mod Mmc1
pub mod Mmc3
pub mod View
pub mod Fixed
mod Tests
