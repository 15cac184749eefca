-- ===== src/Cpu6502/Isa.antt =====
-- crates/cpu6502/src/lib.rs: addressing modes, mnemonics, operands and decoded instructions.
use nes_to_sms.Base.{ℕ, ◌+◌, ltb, Bool, true, false, if◌then◌else◌}

pub data AddrMode : Type 0 where
  implied accumulator immediate zero_page zero_page_x zero_page_y absolute absolute_x absolute_y
        indirect indirect_x indirect_y relative :
      AddrMode

pub data Mnemonic : Type 0 where
  lda ldx ldy sta stx sty tax tay txa tya tsx txs pha php pla plp and ora eor bit adc sbc cmp cpx
        cpy asl lsr rol ror inc inx iny dec dex dey bcc bcs beq bne bmi bpl bvc bvs jmp jsr rts rti
        clc sec cli sei clv cld sed nop brk lax sax dcp isc slo rla sre rra xaa ahx tas las shx shy
        ane jam :
      Mnemonic

unfoldable pub operand_bytes : AddrMode → ℕ
operand_bytes implied = 0
operand_bytes accumulator = 0
operand_bytes immediate = 1
operand_bytes zero_page = 1
operand_bytes zero_page_x = 1
operand_bytes zero_page_y = 1
operand_bytes absolute = 2
operand_bytes absolute_x = 2
operand_bytes absolute_y = 2
operand_bytes indirect = 2
operand_bytes indirect_x = 1
operand_bytes indirect_y = 1
operand_bytes relative = 1

-- `relative` holds the byte of an `i8`.
pub data Operand : Type 0 where
  absent : Operand
  imm addr rel : ℕ → Operand

pub record Instruction : Type 0 where
  pub pc : ℕ
  pub opcode : ℕ
  pub mnemonic : Mnemonic
  pub mode : AddrMode
  pub operand : Operand
  pub size : ℕ
  pub cycles : ℕ
  pub official : Bool

-- `rel as i16 as u16`: a signed byte widened to 16 bits.
abbrev pub sign_extend : ℕ → ℕ
sign_extend b = if ltb b 128 then b else b + 0xff00

unfoldable pub is_branch : Mnemonic → Bool
is_branch bcc = true
is_branch bcs = true
is_branch beq = true
is_branch bne = true
is_branch bmi = true
is_branch bpl = true
is_branch bvc = true
is_branch bvs = true
is_branch _ = false

unfoldable pub is_terminator : Mnemonic → Bool
is_terminator rts = true
is_terminator rti = true
is_terminator jmp = true
is_terminator brk = true
is_terminator jam = true
is_terminator _ = false

unfoldable pub is_call : Mnemonic → Bool
is_call jsr = true
is_call _ = false

unfoldable pub is_return : Mnemonic → Bool
is_return rts = true
is_return rti = true
is_return _ = false
