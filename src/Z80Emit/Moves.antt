-- ===== src/Z80Emit/Moves.antt =====
-- crates/z80_emit/src/lib.rs: the loads between registers.
use nes_to_sms.Z80Emit.Program.{Program}
use nes_to_sms.Z80Emit.Encode.{emit1, emit_imm8}

abbrev pub ld_b_b : Program → Program
ld_b_b = emit1 0x40

abbrev pub ld_b_c : Program → Program
ld_b_c = emit1 0x41

abbrev pub ld_b_d : Program → Program
ld_b_d = emit1 0x42

abbrev pub ld_b_e : Program → Program
ld_b_e = emit1 0x43

abbrev pub ld_b_h : Program → Program
ld_b_h = emit1 0x44

abbrev pub ld_b_l : Program → Program
ld_b_l = emit1 0x45

abbrev pub ld_b_hl_ptr : Program → Program
ld_b_hl_ptr = emit1 0x46

abbrev pub ld_c_b : Program → Program
ld_c_b = emit1 0x48

abbrev pub ld_c_c : Program → Program
ld_c_c = emit1 0x49

abbrev pub ld_c_d : Program → Program
ld_c_d = emit1 0x4a

abbrev pub ld_c_e : Program → Program
ld_c_e = emit1 0x4b

abbrev pub ld_c_h : Program → Program
ld_c_h = emit1 0x4c

abbrev pub ld_c_l : Program → Program
ld_c_l = emit1 0x4d

abbrev pub ld_c_hl_ptr : Program → Program
ld_c_hl_ptr = emit1 0x4e

abbrev pub ld_d_b : Program → Program
ld_d_b = emit1 0x50

abbrev pub ld_d_c : Program → Program
ld_d_c = emit1 0x51

abbrev pub ld_d_d : Program → Program
ld_d_d = emit1 0x52

abbrev pub ld_d_e : Program → Program
ld_d_e = emit1 0x53

abbrev pub ld_d_h : Program → Program
ld_d_h = emit1 0x54

abbrev pub ld_d_l : Program → Program
ld_d_l = emit1 0x55

abbrev pub ld_d_hl_ptr : Program → Program
ld_d_hl_ptr = emit1 0x56

abbrev pub ld_e_b : Program → Program
ld_e_b = emit1 0x58

abbrev pub ld_e_c : Program → Program
ld_e_c = emit1 0x59

abbrev pub ld_e_d : Program → Program
ld_e_d = emit1 0x5a

abbrev pub ld_e_e : Program → Program
ld_e_e = emit1 0x5b

abbrev pub ld_e_h : Program → Program
ld_e_h = emit1 0x5c

abbrev pub ld_e_l : Program → Program
ld_e_l = emit1 0x5d

abbrev pub ld_e_hl_ptr : Program → Program
ld_e_hl_ptr = emit1 0x5e

abbrev pub ld_h_b : Program → Program
ld_h_b = emit1 0x60

abbrev pub ld_h_c : Program → Program
ld_h_c = emit1 0x61

abbrev pub ld_h_d : Program → Program
ld_h_d = emit1 0x62

abbrev pub ld_h_e : Program → Program
ld_h_e = emit1 0x63

abbrev pub ld_h_h : Program → Program
ld_h_h = emit1 0x64

abbrev pub ld_h_l : Program → Program
ld_h_l = emit1 0x65

abbrev pub ld_h_hl_ptr : Program → Program
ld_h_hl_ptr = emit1 0x66

abbrev pub ld_l_b : Program → Program
ld_l_b = emit1 0x68

abbrev pub ld_l_c : Program → Program
ld_l_c = emit1 0x69

abbrev pub ld_l_d : Program → Program
ld_l_d = emit1 0x6a

abbrev pub ld_l_e : Program → Program
ld_l_e = emit1 0x6b

abbrev pub ld_l_h : Program → Program
ld_l_h = emit1 0x6c

abbrev pub ld_l_l : Program → Program
ld_l_l = emit1 0x6d

abbrev pub ld_l_hl_ptr : Program → Program
ld_l_hl_ptr = emit1 0x6e

abbrev pub ld_hl_ptr_b : Program → Program
ld_hl_ptr_b = emit1 0x70

abbrev pub ld_hl_ptr_c : Program → Program
ld_hl_ptr_c = emit1 0x71

abbrev pub ld_hl_ptr_d : Program → Program
ld_hl_ptr_d = emit1 0x72

abbrev pub ld_hl_ptr_e : Program → Program
ld_hl_ptr_e = emit1 0x73

abbrev pub ld_hl_ptr_h : Program → Program
ld_hl_ptr_h = emit1 0x74

abbrev pub ld_hl_ptr_l : Program → Program
ld_hl_ptr_l = emit1 0x75

abbrev pub ld_a_e_reg : Program → Program
ld_a_e_reg = emit1 0x7b

abbrev pub ld_d_a_reg : Program → Program
ld_d_a_reg = emit1 0x57

abbrev pub ld_e_a_reg : Program → Program
ld_e_a_reg = emit1 0x5f

abbrev pub ld_l_e_reg : Program → Program
ld_l_e_reg = emit1 0x6b

abbrev pub adc_a_imm0 : Program → Program
adc_a_imm0 = emit_imm8 0xce 0
