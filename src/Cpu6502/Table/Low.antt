-- ===== src/Cpu6502/Table/Low.antt =====
-- crates/cpu6502/src/table.rs: opcodes 0x00 to 0x7F of the opcode table, sixteen to a row.
use nes_to_sms.Base.{List, [], ◌∷◌, true, false}
use nes_to_sms.Cpu6502.Isa.{
  adc, and, asl, bit, bmi, bpl, brk, bvc, bvs, clc, cli, eor, jam, jmp, jsr, lsr, nop, ora, pha,
  php, pla, plp, rla, rol, ror, rra, rti, rts, sec, sei, slo, sre, absolute, absolute_x, absolute_y,
  accumulator, immediate, implied, indirect, indirect_x, indirect_y, relative, zero_page,
  zero_page_x,
}
use nes_to_sms.Cpu6502.Table.Info.{OpInfo, op}

abbrev pub row_0 : List OpInfo
row_0 =
    op brk implied 7 true
    ∷ op ora indirect_x 6 true
    ∷ op jam implied 2 false
    ∷ op slo indirect_x 8 false
    ∷ op nop zero_page 3 false
    ∷ op ora zero_page 3 true
    ∷ op asl zero_page 5 true
    ∷ op slo zero_page 5 false
    ∷ op php implied 3 true
    ∷ op ora immediate 2 true
    ∷ op asl accumulator 2 true
    ∷ op jam immediate 2 false
    ∷ op nop absolute 4 false
    ∷ op ora absolute 4 true
    ∷ op asl absolute 6 true
    ∷ op slo absolute 6 false
    ∷ []

abbrev pub row_1 : List OpInfo
row_1 =
    op bpl relative 2 true
    ∷ op ora indirect_y 5 true
    ∷ op jam implied 2 false
    ∷ op slo indirect_y 8 false
    ∷ op nop zero_page_x 4 false
    ∷ op ora zero_page_x 4 true
    ∷ op asl zero_page_x 6 true
    ∷ op slo zero_page_x 6 false
    ∷ op clc implied 2 true
    ∷ op ora absolute_y 4 true
    ∷ op nop implied 2 false
    ∷ op slo absolute_y 7 false
    ∷ op nop absolute_x 4 false
    ∷ op ora absolute_x 4 true
    ∷ op asl absolute_x 7 true
    ∷ op slo absolute_x 7 false
    ∷ []

abbrev pub row_2 : List OpInfo
row_2 =
    op jsr absolute 6 true
    ∷ op and indirect_x 6 true
    ∷ op jam implied 2 false
    ∷ op rla indirect_x 8 false
    ∷ op bit zero_page 3 true
    ∷ op and zero_page 3 true
    ∷ op rol zero_page 5 true
    ∷ op rla zero_page 5 false
    ∷ op plp implied 4 true
    ∷ op and immediate 2 true
    ∷ op rol accumulator 2 true
    ∷ op jam immediate 2 false
    ∷ op bit absolute 4 true
    ∷ op and absolute 4 true
    ∷ op rol absolute 6 true
    ∷ op rla absolute 6 false
    ∷ []

abbrev pub row_3 : List OpInfo
row_3 =
    op bmi relative 2 true
    ∷ op and indirect_y 5 true
    ∷ op jam implied 2 false
    ∷ op rla indirect_y 8 false
    ∷ op nop zero_page_x 4 false
    ∷ op and zero_page_x 4 true
    ∷ op rol zero_page_x 6 true
    ∷ op rla zero_page_x 6 false
    ∷ op sec implied 2 true
    ∷ op and absolute_y 4 true
    ∷ op nop implied 2 false
    ∷ op rla absolute_y 7 false
    ∷ op nop absolute_x 4 false
    ∷ op and absolute_x 4 true
    ∷ op rol absolute_x 7 true
    ∷ op rla absolute_x 7 false
    ∷ []

abbrev pub row_4 : List OpInfo
row_4 =
    op rti implied 6 true
    ∷ op eor indirect_x 6 true
    ∷ op jam implied 2 false
    ∷ op sre indirect_x 8 false
    ∷ op nop zero_page 3 false
    ∷ op eor zero_page 3 true
    ∷ op lsr zero_page 5 true
    ∷ op sre zero_page 5 false
    ∷ op pha implied 3 true
    ∷ op eor immediate 2 true
    ∷ op lsr accumulator 2 true
    ∷ op jam immediate 2 false
    ∷ op jmp absolute 3 true
    ∷ op eor absolute 4 true
    ∷ op lsr absolute 6 true
    ∷ op sre absolute 6 false
    ∷ []

abbrev pub row_5 : List OpInfo
row_5 =
    op bvc relative 2 true
    ∷ op eor indirect_y 5 true
    ∷ op jam implied 2 false
    ∷ op sre indirect_y 8 false
    ∷ op nop zero_page_x 4 false
    ∷ op eor zero_page_x 4 true
    ∷ op lsr zero_page_x 6 true
    ∷ op sre zero_page_x 6 false
    ∷ op cli implied 2 true
    ∷ op eor absolute_y 4 true
    ∷ op nop implied 2 false
    ∷ op sre absolute_y 7 false
    ∷ op nop absolute_x 4 false
    ∷ op eor absolute_x 4 true
    ∷ op lsr absolute_x 7 true
    ∷ op sre absolute_x 7 false
    ∷ []

abbrev pub row_6 : List OpInfo
row_6 =
    op rts implied 6 true
    ∷ op adc indirect_x 6 true
    ∷ op jam implied 2 false
    ∷ op rra indirect_x 8 false
    ∷ op nop zero_page 3 false
    ∷ op adc zero_page 3 true
    ∷ op ror zero_page 5 true
    ∷ op rra zero_page 5 false
    ∷ op pla implied 4 true
    ∷ op adc immediate 2 true
    ∷ op ror accumulator 2 true
    ∷ op jam immediate 2 false
    ∷ op jmp indirect 5 true
    ∷ op adc absolute 4 true
    ∷ op ror absolute 6 true
    ∷ op rra absolute 6 false
    ∷ []

abbrev pub row_7 : List OpInfo
row_7 =
    op bvs relative 2 true
    ∷ op adc indirect_y 5 true
    ∷ op jam implied 2 false
    ∷ op rra indirect_y 8 false
    ∷ op nop zero_page_x 4 false
    ∷ op adc zero_page_x 4 true
    ∷ op ror zero_page_x 6 true
    ∷ op rra zero_page_x 6 false
    ∷ op sei implied 2 true
    ∷ op adc absolute_y 4 true
    ∷ op nop implied 2 false
    ∷ op rra absolute_y 7 false
    ∷ op nop absolute_x 4 false
    ∷ op adc absolute_x 4 true
    ∷ op ror absolute_x 7 true
    ∷ op rra absolute_x 7 false
    ∷ []
