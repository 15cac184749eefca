-- ===== src/Cpu6502/Table/High.antt =====
-- crates/cpu6502/src/table.rs: opcodes 0x80 to 0xFF of the opcode table, sixteen to a row.
use nes_to_sms.Base.{List, [], ◌∷◌, true, false}
use nes_to_sms.Cpu6502.Isa.{
  ahx, ane, bcc, bcs, beq, bne, cld, clv, cmp, cpx, cpy, dcp, dec, dex, dey, inc, inx, iny, isc,
  jam, las, lax, lda, ldx, ldy, nop, sax, sbc, sed, shx, shy, sta, stx, sty, tas, tax, tay, tsx,
  txa, txs, tya, absolute, absolute_x, absolute_y, immediate, implied, indirect_x, indirect_y,
  relative, zero_page, zero_page_x, zero_page_y,
}
use nes_to_sms.Cpu6502.Table.Info.{OpInfo, op}

abbrev pub row_8 : List OpInfo
row_8 =
    op nop immediate 2 false
    ∷ op sta indirect_x 6 true
    ∷ op nop immediate 2 false
    ∷ op sax indirect_x 6 false
    ∷ op sty zero_page 3 true
    ∷ op sta zero_page 3 true
    ∷ op stx zero_page 3 true
    ∷ op sax zero_page 3 false
    ∷ op dey implied 2 true
    ∷ op nop immediate 2 false
    ∷ op txa implied 2 true
    ∷ op ane immediate 2 false
    ∷ op sty absolute 4 true
    ∷ op sta absolute 4 true
    ∷ op stx absolute 4 true
    ∷ op sax absolute 4 false
    ∷ []

abbrev pub row_9 : List OpInfo
row_9 =
    op bcc relative 2 true
    ∷ op sta indirect_y 6 true
    ∷ op jam implied 2 false
    ∷ op ahx indirect_y 6 false
    ∷ op sty zero_page_x 4 true
    ∷ op sta zero_page_x 4 true
    ∷ op stx zero_page_y 4 true
    ∷ op sax zero_page_y 4 false
    ∷ op tya implied 2 true
    ∷ op sta absolute_y 5 true
    ∷ op txs implied 2 true
    ∷ op tas absolute_y 5 false
    ∷ op shy absolute_x 5 false
    ∷ op sta absolute_x 5 true
    ∷ op shx absolute_y 5 false
    ∷ op ahx absolute_y 5 false
    ∷ []

abbrev pub row_a : List OpInfo
row_a =
    op ldy immediate 2 true
    ∷ op lda indirect_x 6 true
    ∷ op ldx immediate 2 true
    ∷ op lax indirect_x 6 false
    ∷ op ldy zero_page 3 true
    ∷ op lda zero_page 3 true
    ∷ op ldx zero_page 3 true
    ∷ op lax zero_page 3 false
    ∷ op tay implied 2 true
    ∷ op lda immediate 2 true
    ∷ op tax implied 2 true
    ∷ op lax immediate 2 false
    ∷ op ldy absolute 4 true
    ∷ op lda absolute 4 true
    ∷ op ldx absolute 4 true
    ∷ op lax absolute 4 false
    ∷ []

abbrev pub row_b : List OpInfo
row_b =
    op bcs relative 2 true
    ∷ op lda indirect_y 5 true
    ∷ op jam implied 2 false
    ∷ op lax indirect_y 5 false
    ∷ op ldy zero_page_x 4 true
    ∷ op lda zero_page_x 4 true
    ∷ op ldx zero_page_y 4 true
    ∷ op lax zero_page_y 4 false
    ∷ op clv implied 2 true
    ∷ op lda absolute_y 4 true
    ∷ op tsx implied 2 true
    ∷ op las absolute_y 4 false
    ∷ op ldy absolute_x 4 true
    ∷ op lda absolute_x 4 true
    ∷ op ldx absolute_y 4 true
    ∷ op lax absolute_y 4 false
    ∷ []

abbrev pub row_c : List OpInfo
row_c =
    op cpy immediate 2 true
    ∷ op cmp indirect_x 6 true
    ∷ op nop immediate 2 false
    ∷ op dcp indirect_x 8 false
    ∷ op cpy zero_page 3 true
    ∷ op cmp zero_page 3 true
    ∷ op dec zero_page 5 true
    ∷ op dcp zero_page 5 false
    ∷ op iny implied 2 true
    ∷ op cmp immediate 2 true
    ∷ op dex implied 2 true
    ∷ op jam immediate 2 false
    ∷ op cpy absolute 4 true
    ∷ op cmp absolute 4 true
    ∷ op dec absolute 6 true
    ∷ op dcp absolute 6 false
    ∷ []

abbrev pub row_d : List OpInfo
row_d =
    op bne relative 2 true
    ∷ op cmp indirect_y 5 true
    ∷ op jam implied 2 false
    ∷ op dcp indirect_y 8 false
    ∷ op nop zero_page_x 4 false
    ∷ op cmp zero_page_x 4 true
    ∷ op dec zero_page_x 6 true
    ∷ op dcp zero_page_x 6 false
    ∷ op cld implied 2 true
    ∷ op cmp absolute_y 4 true
    ∷ op nop implied 2 false
    ∷ op dcp absolute_y 7 false
    ∷ op nop absolute_x 4 false
    ∷ op cmp absolute_x 4 true
    ∷ op dec absolute_x 7 true
    ∷ op dcp absolute_x 7 false
    ∷ []

abbrev pub row_e : List OpInfo
row_e =
    op cpx immediate 2 true
    ∷ op sbc indirect_x 6 true
    ∷ op nop immediate 2 false
    ∷ op isc indirect_x 8 false
    ∷ op cpx zero_page 3 true
    ∷ op sbc zero_page 3 true
    ∷ op inc zero_page 5 true
    ∷ op isc zero_page 5 false
    ∷ op inx implied 2 true
    ∷ op sbc immediate 2 true
    ∷ op nop implied 2 true
    ∷ op sbc immediate 2 false
    ∷ op cpx absolute 4 true
    ∷ op sbc absolute 4 true
    ∷ op inc absolute 6 true
    ∷ op isc absolute 6 false
    ∷ []

abbrev pub row_f : List OpInfo
row_f =
    op beq relative 2 true
    ∷ op sbc indirect_y 5 true
    ∷ op jam implied 2 false
    ∷ op isc indirect_y 8 false
    ∷ op nop zero_page_x 4 false
    ∷ op sbc zero_page_x 4 true
    ∷ op inc zero_page_x 6 true
    ∷ op isc zero_page_x 6 false
    ∷ op sed implied 2 true
    ∷ op sbc absolute_y 4 true
    ∷ op nop implied 2 false
    ∷ op isc absolute_y 7 false
    ∷ op nop absolute_x 4 false
    ∷ op sbc absolute_x 4 true
    ∷ op inc absolute_x 7 true
    ∷ op isc absolute_x 7 false
    ∷ []
