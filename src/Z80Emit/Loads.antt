-- ===== src/Z80Emit/Loads.antt =====
-- crates/z80_emit/src/lib.rs: the loads with constants, addresses and the accumulator.
use nes_to_sms.Base.{ℕ, [], ◌∷◌}
use nes_to_sms.Z80Emit.Program.{Program}
use nes_to_sms.Z80Emit.Encode.{emit1, emit_bytes, emit_imm16, emit_imm8}

abbrev pub ld_a_imm : ℕ → Program → Program
ld_a_imm = emit_imm8 0x3e

abbrev pub ld_b_imm : ℕ → Program → Program
ld_b_imm = emit_imm8 0x06

abbrev pub ld_c_imm : ℕ → Program → Program
ld_c_imm = emit_imm8 0x0e

abbrev pub ld_d_imm : ℕ → Program → Program
ld_d_imm = emit_imm8 0x16

abbrev pub ld_e_imm : ℕ → Program → Program
ld_e_imm = emit_imm8 0x1e

abbrev pub ld_h_imm : ℕ → Program → Program
ld_h_imm = emit_imm8 0x26

abbrev pub ld_l_imm : ℕ → Program → Program
ld_l_imm = emit_imm8 0x2e

abbrev pub ld_a_abs : ℕ → Program → Program
ld_a_abs = emit_imm16 0x3a

abbrev pub ld_abs_a : ℕ → Program → Program
ld_abs_a = emit_imm16 0x32

abbrev pub ld_a_hl_ptr : Program → Program
ld_a_hl_ptr = emit1 0x7e

abbrev pub ld_hl_ptr_a : Program → Program
ld_hl_ptr_a = emit1 0x77

abbrev pub ld_a_de_ptr : Program → Program
ld_a_de_ptr = emit1 0x1a

abbrev pub ld_de_ptr_a : Program → Program
ld_de_ptr_a = emit1 0x12

abbrev pub ld_a_bc_ptr : Program → Program
ld_a_bc_ptr = emit1 0x0a

abbrev pub ld_bc_ptr_a : Program → Program
ld_bc_ptr_a = emit1 0x02

abbrev pub ld_a_b : Program → Program
ld_a_b = emit1 0x78

abbrev pub ld_a_c : Program → Program
ld_a_c = emit1 0x79

abbrev pub ld_a_d : Program → Program
ld_a_d = emit1 0x7a

abbrev pub ld_a_e : Program → Program
ld_a_e = emit1 0x7b

abbrev pub ld_a_h : Program → Program
ld_a_h = emit1 0x7c

abbrev pub ld_a_l : Program → Program
ld_a_l = emit1 0x7d

abbrev pub ld_a_i : Program → Program
ld_a_i = emit_bytes (0xed ∷ 0x57 ∷ [])

abbrev pub ld_b_a : Program → Program
ld_b_a = emit1 0x47

abbrev pub ld_c_a : Program → Program
ld_c_a = emit1 0x4f

abbrev pub ld_d_a : Program → Program
ld_d_a = emit1 0x57

abbrev pub ld_e_a : Program → Program
ld_e_a = emit1 0x5f

abbrev pub ld_h_a : Program → Program
ld_h_a = emit1 0x67

abbrev pub ld_l_a : Program → Program
ld_l_a = emit1 0x6f

abbrev pub ld_hl_imm : ℕ → Program → Program
ld_hl_imm = emit_imm16 0x21

abbrev pub ld_bc_imm : ℕ → Program → Program
ld_bc_imm = emit_imm16 0x01

abbrev pub ld_de_imm : ℕ → Program → Program
ld_de_imm = emit_imm16 0x11

abbrev pub ld_sp_imm : ℕ → Program → Program
ld_sp_imm = emit_imm16 0x31

abbrev pub ldir : Program → Program
ldir = emit_bytes (0xed ∷ 0xb0 ∷ [])

abbrev pub ld_hl_abs : ℕ → Program → Program
ld_hl_abs = emit_imm16 0x2a

abbrev pub ld_abs_hl : ℕ → Program → Program
ld_abs_hl = emit_imm16 0x22
