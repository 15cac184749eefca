-- ===== src/Cpu6502/Timing.antt =====
-- crates/cpu6502/src/timing.rs: the bus-sequence family and cycle penalty of an instruction.
use nes_to_sms.Base.{ℕ, ◌==◌, Bool, true, false, Option, none, some, if◌then◌else◌}
use nes_to_sms.Cpu6502.Isa.{
  AddrMode, implied, accumulator, absolute, absolute_x, absolute_y, indirect, indirect_y,
  Instruction, Mnemonic, lda, ldx, ldy, lax, adc, sbc, and, ora, eor, bit, cmp, cpx, cpy, sta, stx,
  sty, sax, bcc, bcs, beq, bne, bmi, bpl, bvc, bvs, inc, dec, dcp, isc, slo, rla, sre, rra, pha,
  php, pla, plp, tax, tay, txa, tya, tsx, txs, inx, iny, dex, dey, clc, sec, cli, sei, clv, cld,
  sed, asl, lsr, rol, ror, jsr, rts, rti, brk, jmp, nop,
}

pub data BusSequence : Type 0 where
  read write read_modify_write implied_sequence branch push pull jsr_sequence rts_sequence
        rti_sequence brk_sequence jump_absolute jump_indirect :
      BusSequence

pub data CyclePenalty : Type 0 where
  no_penalty indexed_read_page_cross branch_taken_and_page_cross : CyclePenalty

pub record InstructionTiming : Type 0 where
  pub sequence : BusSequence
  pub base_cycles : ℕ
  pub penalty : CyclePenalty

shift_sequence : AddrMode → BusSequence
shift_sequence accumulator = implied_sequence
shift_sequence _ = read_modify_write

jump_sequence : AddrMode → Option BusSequence
jump_sequence absolute = some jump_absolute
jump_sequence indirect = some jump_indirect
jump_sequence _ = none

nop_sequence : AddrMode → BusSequence
nop_sequence implied = implied_sequence
nop_sequence _ = read

-- The first match of `Instruction::timing`.
sequence_of : Mnemonic → AddrMode → Option BusSequence
unfolding shift_sequence jump_sequence nop_sequence
sequence_of lda mode = some read
sequence_of ldx mode = some read
sequence_of ldy mode = some read
sequence_of lax mode = some read
sequence_of adc mode = some read
sequence_of sbc mode = some read
sequence_of and mode = some read
sequence_of ora mode = some read
sequence_of eor mode = some read
sequence_of bit mode = some read
sequence_of cmp mode = some read
sequence_of cpx mode = some read
sequence_of cpy mode = some read
sequence_of sta mode = some write
sequence_of stx mode = some write
sequence_of sty mode = some write
sequence_of sax mode = some write
sequence_of bcc mode = some branch
sequence_of bcs mode = some branch
sequence_of beq mode = some branch
sequence_of bne mode = some branch
sequence_of bmi mode = some branch
sequence_of bpl mode = some branch
sequence_of bvc mode = some branch
sequence_of bvs mode = some branch
sequence_of inc mode = some read_modify_write
sequence_of dec mode = some read_modify_write
sequence_of dcp mode = some read_modify_write
sequence_of isc mode = some read_modify_write
sequence_of slo mode = some read_modify_write
sequence_of rla mode = some read_modify_write
sequence_of sre mode = some read_modify_write
sequence_of rra mode = some read_modify_write
sequence_of pha mode = some push
sequence_of php mode = some push
sequence_of pla mode = some pull
sequence_of plp mode = some pull
sequence_of tax mode = some implied_sequence
sequence_of tay mode = some implied_sequence
sequence_of txa mode = some implied_sequence
sequence_of tya mode = some implied_sequence
sequence_of tsx mode = some implied_sequence
sequence_of txs mode = some implied_sequence
sequence_of inx mode = some implied_sequence
sequence_of iny mode = some implied_sequence
sequence_of dex mode = some implied_sequence
sequence_of dey mode = some implied_sequence
sequence_of clc mode = some implied_sequence
sequence_of sec mode = some implied_sequence
sequence_of cli mode = some implied_sequence
sequence_of sei mode = some implied_sequence
sequence_of clv mode = some implied_sequence
sequence_of cld mode = some implied_sequence
sequence_of sed mode = some implied_sequence
sequence_of asl mode = some (shift_sequence mode)
sequence_of lsr mode = some (shift_sequence mode)
sequence_of rol mode = some (shift_sequence mode)
sequence_of ror mode = some (shift_sequence mode)
sequence_of jsr mode = some jsr_sequence
sequence_of rts mode = some rts_sequence
sequence_of rti mode = some rti_sequence
sequence_of brk mode = some brk_sequence
sequence_of jmp mode = jump_sequence mode
sequence_of nop mode = some (nop_sequence mode)
sequence_of _ mode = none

is_indexed_read : AddrMode → Bool
is_indexed_read absolute_x = true
is_indexed_read absolute_y = true
is_indexed_read indirect_y = true
is_indexed_read _ = false

penalty_of : BusSequence → AddrMode → CyclePenalty
unfolding is_indexed_read
penalty_of branch mode = branch_taken_and_page_cross
penalty_of read mode = if is_indexed_read mode then indexed_read_page_cross else no_penalty
penalty_of _ mode = no_penalty

with_penalty : AddrMode → ℕ → Option BusSequence → Option InstructionTiming
unfolding penalty_of
with_penalty mode cycles none = none
with_penalty mode cycles (some s) =
    some (record { sequence = s; base_cycles = cycles; penalty = penalty_of s mode })

-- Opcode 0xAB, the immediate LAX, has no timing.
unfoldable pub timing : Instruction → Option InstructionTiming
unfolding sequence_of with_penalty
timing i =
    if i.opcode == 0xab then none else with_penalty i.mode i.cycles (sequence_of i.mnemonic i.mode)
