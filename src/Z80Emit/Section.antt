-- ===== src/Z80Emit/Section.antt =====
-- crates/z80_emit/src/lib.rs: `Section`. Of the listing only the number of its lines is kept.
use Prim.Native.String.{String}
use nes_to_sms.Base.{ℕ, ◌+◌, ◌/◌, u8, u16, Bool, Option, none, List, [], ◌∷◌, ◌++◌, length}

pub record SectionPlacement : Type 0 where
  pub bank : ℕ
  pub slot : ℕ
  pub project_data : Bool

pub record Section : Type 0 where
  pub name : String
  pub org : ℕ
  pub bytes : List ℕ
  pub asm_lines : ℕ
  pub placement : Option SectionPlacement

abbrev pub new : String → Section
new name = record { name = name; org = 0; bytes = []; asm_lines = 0; placement = none }

abbrev pub len : Section → ℕ
len s = length s.bytes

abbrev pub current_addr : Section → ℕ
current_addr s = u16 (s.org + u16 (len s))

abbrev pub push_byte : ℕ → Section → Section
push_byte b s = record s { bytes = s.bytes ++ b ∷ [] }

abbrev pub push_u16_le : ℕ → Section → Section
push_u16_le v s = push_byte (u8 (v / 256)) (push_byte (u8 v) s)

abbrev pub push_asm : Section → Section
push_asm s = record s { asm_lines = s.asm_lines + 1 }

abbrev pub push_bytes : List ℕ → Section → Section
push_bytes [] s = s
push_bytes (b ∷ bs) s = push_bytes bs (push_byte b s)
