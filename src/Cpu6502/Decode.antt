-- ===== src/Cpu6502/Decode.antt =====
-- crates/cpu6502/src/lib.rs: `decode_at` and `Instruction::branch_target`.
use nes_to_sms.Base.{
  ℕ, ◌+◌, ◌*◌, ltb, u16, Bool, true, false, List, get_elem?, get_or, length, Option, none, some,
  Result, ok, err, if◌then◌else◌,
}
use nes_to_sms.Cpu6502.Isa.{
  AddrMode, implied, accumulator, immediate, zero_page, zero_page_x, zero_page_y, absolute,
  absolute_x, absolute_y, indirect, indirect_x, indirect_y, relative, Mnemonic, jmp, jsr,
  operand_bytes, Operand, absent, imm, addr, rel, Instruction, sign_extend, is_branch,
}
use nes_to_sms.Cpu6502.Table.{opcode_info}

pub data DecodeError : Type 0 where
  truncated : DecodeError

-- `lo` and `hi` are the bytes at `offset + 1` and `offset + 2`; a mode reads only its own.
unfoldable pub operand_of : AddrMode → ℕ → ℕ → Operand
operand_of implied lo hi = absent
operand_of accumulator lo hi = absent
operand_of immediate lo hi = imm lo
operand_of zero_page lo hi = addr lo
operand_of zero_page_x lo hi = addr lo
operand_of zero_page_y lo hi = addr lo
operand_of indirect_x lo hi = addr lo
operand_of indirect_y lo hi = addr lo
operand_of absolute lo hi = addr (lo + 256 * hi)
operand_of absolute_x lo hi = addr (lo + 256 * hi)
operand_of absolute_y lo hi = addr (lo + 256 * hi)
operand_of indirect lo hi = addr (lo + 256 * hi)
operand_of relative lo hi = rel lo

-- The instruction that `decode_at` returns once the operand bytes are known to be there.
unfoldable pub decoded : List ℕ → ℕ → ℕ → ℕ → Instruction
decoded bytes pc offset opcode =
    let info = opcode_info opcode in
    record {
      pc = pc;
      opcode = opcode;
      mnemonic = info.mnemonic;
      mode = info.mode;
      operand = operand_of info.mode (get_or bytes (offset + 1) 0) (get_or bytes (offset + 2) 0);
      size = 1 + operand_bytes info.mode;
      cycles = info.cycles;
      official = info.official;
    }

decode_opcode : List ℕ → ℕ → ℕ → Option ℕ → Result DecodeError Instruction
decode_opcode bytes pc offset none = err truncated
decode_opcode bytes pc offset (some opcode) =
    if ltb (length bytes) (offset + 1 + operand_bytes (opcode_info opcode).mode)
    then err truncated
    else ok (decoded bytes pc offset opcode)

unfoldable pub decode_at : List ℕ → ℕ → ℕ → Result DecodeError Instruction
unfolding decode_opcode
decode_at bytes pc offset = decode_opcode bytes pc offset (get_elem? bytes offset)

unfoldable pub absolute_target : AddrMode → Operand → Option ℕ
absolute_target absolute (addr a) = some a
absolute_target _ _ = none

unfoldable pub relative_target : ℕ → AddrMode → Operand → Option ℕ
relative_target next relative (rel b) = some (u16 (next + sign_extend b))
relative_target _ _ _ = none

unfoldable pub is_direct_jump : Mnemonic → Bool
is_direct_jump jmp = true
is_direct_jump jsr = true
is_direct_jump _ = false

-- The match of `branch_target`, its three groups of arms by mnemonic.
unfoldable pub branch_target : Instruction → Option ℕ
unfolding is_direct_jump is_branch
branch_target i =
    if is_direct_jump i.mnemonic
    then absolute_target i.mode i.operand
    else (if is_branch i.mnemonic
        then relative_target (u16 (i.pc + i.size)) i.mode i.operand
        else none)
