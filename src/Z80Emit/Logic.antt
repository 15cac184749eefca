-- ===== src/Z80Emit/Logic.antt =====
-- crates/z80_emit/src/lib.rs: the comparisons, the logic on the accumulator and the additions to HL.
use nes_to_sms.Z80Emit.Program.{Program}
use nes_to_sms.Z80Emit.Encode.{emit1}

abbrev pub sbc_a_l : Program → Program
sbc_a_l = emit1 0x9d

abbrev pub sbc_a_hl_ptr : Program → Program
sbc_a_hl_ptr = emit1 0x9e

abbrev pub and_a : Program → Program
and_a = emit1 0xa7

abbrev pub and_b : Program → Program
and_b = emit1 0xa0

abbrev pub and_c : Program → Program
and_c = emit1 0xa1

abbrev pub and_d : Program → Program
and_d = emit1 0xa2

abbrev pub and_e : Program → Program
and_e = emit1 0xa3

abbrev pub and_h : Program → Program
and_h = emit1 0xa4

abbrev pub and_l : Program → Program
and_l = emit1 0xa5

abbrev pub and_hl_ptr : Program → Program
and_hl_ptr = emit1 0xa6

abbrev pub or_a : Program → Program
or_a = emit1 0xb7

abbrev pub or_b : Program → Program
or_b = emit1 0xb0

abbrev pub or_c : Program → Program
or_c = emit1 0xb1

abbrev pub or_d : Program → Program
or_d = emit1 0xb2

abbrev pub or_e : Program → Program
or_e = emit1 0xb3

abbrev pub or_h : Program → Program
or_h = emit1 0xb4

abbrev pub or_l : Program → Program
or_l = emit1 0xb5

abbrev pub or_hl_ptr : Program → Program
or_hl_ptr = emit1 0xb6

abbrev pub xor_a : Program → Program
xor_a = emit1 0xaf

abbrev pub xor_b : Program → Program
xor_b = emit1 0xa8

abbrev pub xor_c : Program → Program
xor_c = emit1 0xa9

abbrev pub xor_d : Program → Program
xor_d = emit1 0xaa

abbrev pub xor_e : Program → Program
xor_e = emit1 0xab

abbrev pub xor_h : Program → Program
xor_h = emit1 0xac

abbrev pub xor_l : Program → Program
xor_l = emit1 0xad

abbrev pub xor_hl_ptr : Program → Program
xor_hl_ptr = emit1 0xae

abbrev pub cp_a : Program → Program
cp_a = emit1 0xbf

abbrev pub cp_b : Program → Program
cp_b = emit1 0xb8

abbrev pub cp_c : Program → Program
cp_c = emit1 0xb9

abbrev pub cp_d : Program → Program
cp_d = emit1 0xba

abbrev pub cp_e : Program → Program
cp_e = emit1 0xbb

abbrev pub cp_h : Program → Program
cp_h = emit1 0xbc

abbrev pub cp_l : Program → Program
cp_l = emit1 0xbd

abbrev pub cp_hl_ptr : Program → Program
cp_hl_ptr = emit1 0xbe

abbrev pub add_hl_bc : Program → Program
add_hl_bc = emit1 0x09

abbrev pub add_hl_de : Program → Program
add_hl_de = emit1 0x19

abbrev pub add_hl_hl : Program → Program
add_hl_hl = emit1 0x29

abbrev pub add_hl_sp : Program → Program
add_hl_sp = emit1 0x39
