-- ===== src/Z80Emit/Arithmetic.antt =====
-- crates/z80_emit/src/lib.rs: the additions and subtractions on the accumulator.
use nes_to_sms.Base.{ℕ}
use nes_to_sms.Z80Emit.Program.{Program}
use nes_to_sms.Z80Emit.Encode.{emit1, emit_imm8}

abbrev pub add_a_imm : ℕ → Program → Program
add_a_imm = emit_imm8 0xc6

abbrev pub adc_a_imm : ℕ → Program → Program
adc_a_imm = emit_imm8 0xce

abbrev pub sub_imm : ℕ → Program → Program
sub_imm = emit_imm8 0xd6

abbrev pub sbc_a_imm : ℕ → Program → Program
sbc_a_imm = emit_imm8 0xde

abbrev pub and_imm : ℕ → Program → Program
and_imm = emit_imm8 0xe6

abbrev pub or_imm : ℕ → Program → Program
or_imm = emit_imm8 0xf6

abbrev pub xor_imm : ℕ → Program → Program
xor_imm = emit_imm8 0xee

abbrev pub cp_imm : ℕ → Program → Program
cp_imm = emit_imm8 0xfe

abbrev pub add_a_a : Program → Program
add_a_a = emit1 0x87

abbrev pub add_a_b : Program → Program
add_a_b = emit1 0x80

abbrev pub add_a_c : Program → Program
add_a_c = emit1 0x81

abbrev pub add_a_d : Program → Program
add_a_d = emit1 0x82

abbrev pub add_a_e : Program → Program
add_a_e = emit1 0x83

abbrev pub add_a_h : Program → Program
add_a_h = emit1 0x84

abbrev pub add_a_l : Program → Program
add_a_l = emit1 0x85

abbrev pub add_a_hl_ptr : Program → Program
add_a_hl_ptr = emit1 0x86

abbrev pub adc_a_a : Program → Program
adc_a_a = emit1 0x8f

abbrev pub adc_a_b : Program → Program
adc_a_b = emit1 0x88

abbrev pub adc_a_c : Program → Program
adc_a_c = emit1 0x89

abbrev pub adc_a_d : Program → Program
adc_a_d = emit1 0x8a

abbrev pub adc_a_e : Program → Program
adc_a_e = emit1 0x8b

abbrev pub adc_a_h : Program → Program
adc_a_h = emit1 0x8c

abbrev pub adc_a_l : Program → Program
adc_a_l = emit1 0x8d

abbrev pub adc_a_hl_ptr : Program → Program
adc_a_hl_ptr = emit1 0x8e

abbrev pub sub_a : Program → Program
sub_a = emit1 0x97

abbrev pub sub_b : Program → Program
sub_b = emit1 0x90

abbrev pub sub_c : Program → Program
sub_c = emit1 0x91

abbrev pub sub_d : Program → Program
sub_d = emit1 0x92

abbrev pub sub_e : Program → Program
sub_e = emit1 0x93

abbrev pub sub_h : Program → Program
sub_h = emit1 0x94

abbrev pub sub_l : Program → Program
sub_l = emit1 0x95

abbrev pub sub_hl_ptr : Program → Program
sub_hl_ptr = emit1 0x96

abbrev pub sbc_a_a : Program → Program
sbc_a_a = emit1 0x9f

abbrev pub sbc_a_b : Program → Program
sbc_a_b = emit1 0x98

abbrev pub sbc_a_c : Program → Program
sbc_a_c = emit1 0x99

abbrev pub sbc_a_d : Program → Program
sbc_a_d = emit1 0x9a

abbrev pub sbc_a_e : Program → Program
sbc_a_e = emit1 0x9b

abbrev pub sbc_a_h : Program → Program
sbc_a_h = emit1 0x9c
