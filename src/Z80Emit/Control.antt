-- ===== src/Z80Emit/Control.antt =====
-- crates/z80_emit/src/lib.rs: the steps, rotations, flags, returns, the stack and the ports.
use nes_to_sms.Base.{ℕ}
use nes_to_sms.Z80Emit.Program.{Program}
use nes_to_sms.Z80Emit.Encode.{emit1, emit_cb, emit_imm8}

abbrev pub inc_a : Program → Program
inc_a = emit1 0x3c

abbrev pub dec_a : Program → Program
dec_a = emit1 0x3d

abbrev pub inc_b : Program → Program
inc_b = emit1 0x04

abbrev pub dec_b : Program → Program
dec_b = emit1 0x05

abbrev pub inc_c : Program → Program
inc_c = emit1 0x0c

abbrev pub dec_c : Program → Program
dec_c = emit1 0x0d

abbrev pub inc_d : Program → Program
inc_d = emit1 0x14

abbrev pub dec_d : Program → Program
dec_d = emit1 0x15

abbrev pub inc_e : Program → Program
inc_e = emit1 0x1c

abbrev pub dec_e : Program → Program
dec_e = emit1 0x1d

abbrev pub inc_h : Program → Program
inc_h = emit1 0x24

abbrev pub dec_h : Program → Program
dec_h = emit1 0x25

abbrev pub inc_l : Program → Program
inc_l = emit1 0x2c

abbrev pub dec_l : Program → Program
dec_l = emit1 0x2d

abbrev pub inc_hl_ptr : Program → Program
inc_hl_ptr = emit1 0x34

abbrev pub dec_hl_ptr : Program → Program
dec_hl_ptr = emit1 0x35

abbrev pub inc_hl : Program → Program
inc_hl = emit1 0x23

abbrev pub dec_hl : Program → Program
dec_hl = emit1 0x2b

abbrev pub inc_bc : Program → Program
inc_bc = emit1 0x03

abbrev pub dec_bc : Program → Program
dec_bc = emit1 0x0b

abbrev pub inc_de : Program → Program
inc_de = emit1 0x13

abbrev pub dec_de : Program → Program
dec_de = emit1 0x1b

abbrev pub rlca : Program → Program
rlca = emit1 0x07

abbrev pub rrca : Program → Program
rrca = emit1 0x0f

abbrev pub rla : Program → Program
rla = emit1 0x17

abbrev pub rra : Program → Program
rra = emit1 0x1f

abbrev pub sla_a : Program → Program
sla_a = emit_cb 0x27

abbrev pub srl_a : Program → Program
srl_a = emit_cb 0x3f

abbrev pub rl_a : Program → Program
rl_a = emit_cb 0x17

abbrev pub rl_b : Program → Program
rl_b = emit_cb 0x10

abbrev pub sla_hl_ptr : Program → Program
sla_hl_ptr = emit_cb 0x26

abbrev pub srl_hl_ptr : Program → Program
srl_hl_ptr = emit_cb 0x3e

abbrev pub rl_hl_ptr : Program → Program
rl_hl_ptr = emit_cb 0x16

abbrev pub rr_hl_ptr : Program → Program
rr_hl_ptr = emit_cb 0x1e

abbrev pub rr_a : Program → Program
rr_a = emit_cb 0x1f

abbrev pub scf : Program → Program
scf = emit1 0x37

abbrev pub ccf : Program → Program
ccf = emit1 0x3f

abbrev pub cpl : Program → Program
cpl = emit1 0x2f

abbrev pub nop : Program → Program
nop = emit1 0x00

abbrev pub halt : Program → Program
halt = emit1 0x76

abbrev pub di : Program → Program
di = emit1 0xf3

abbrev pub ei : Program → Program
ei = emit1 0xfb

abbrev pub jp_hl : Program → Program
jp_hl = emit1 0xe9

abbrev pub ret : Program → Program
ret = emit1 0xc9

abbrev pub ret_z : Program → Program
ret_z = emit1 0xc8

abbrev pub ret_nz : Program → Program
ret_nz = emit1 0xc0

abbrev pub ret_c : Program → Program
ret_c = emit1 0xd8

abbrev pub ret_nc : Program → Program
ret_nc = emit1 0xd0

abbrev pub push_af : Program → Program
push_af = emit1 0xf5

abbrev pub pop_af : Program → Program
pop_af = emit1 0xf1

abbrev pub push_bc : Program → Program
push_bc = emit1 0xc5

abbrev pub pop_bc : Program → Program
pop_bc = emit1 0xc1

abbrev pub push_de : Program → Program
push_de = emit1 0xd5

abbrev pub pop_de : Program → Program
pop_de = emit1 0xd1

abbrev pub push_hl : Program → Program
push_hl = emit1 0xe5

abbrev pub pop_hl : Program → Program
pop_hl = emit1 0xe1

abbrev pub in_a : ℕ → Program → Program
in_a = emit_imm8 0xdb

abbrev pub out_a : ℕ → Program → Program
out_a = emit_imm8 0xd3
