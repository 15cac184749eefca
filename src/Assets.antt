-- ===== src/Assets.antt =====
-- crates/assets: graphics of the NES into those of the SMS.
pub mod Convert
pub mod Tiles
mod Tests
