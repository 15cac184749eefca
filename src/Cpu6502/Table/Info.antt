-- ===== src/Cpu6502/Table/Info.antt =====
-- crates/cpu6502/src/table.rs: one entry of the opcode table.
use nes_to_sms.Base.{ℕ, Bool}
use nes_to_sms.Cpu6502.Isa.{Mnemonic, AddrMode}

pub record OpInfo : Type 0 where
  pub mnemonic : Mnemonic
  pub mode : AddrMode
  pub cycles : ℕ
  pub official : Bool

abbrev pub op : Mnemonic → AddrMode → ℕ → Bool → OpInfo
op m a c o = record { mnemonic = m; mode = a; cycles = c; official = o }
