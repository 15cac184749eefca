-- ===== src/Z80Emu/Bounds.antt =====
-- crates/z80_emu/src/lib.rs: the registers keep their widths under the operations that touch no bus.
use nes_to_sms.Base.{
  ℕ, ◌<◌, arith, Bool, true, false, if◌then◌else◌, u8, not8, bit_and, bit_or, bit_xor, bit_and-lt,
  bit_and_mask, bit_or-lt, bit_xor-lt,
}
use nes_to_sms.Z80Emu.Cpu.{
  Cpu, new, word, put_flag, undoc, add_flags, sub_flags, logic_flags, inc_flags, dec_flags, alu_add,
  alu_sub, sub_a, alu_and, alu_or, alu_xor, alu_cp, flag_c, flag_h, flag_n, flag_pv, flag_s, flag_z,
  carry_in, write_r, read_r, do_inc, do_dec,
}

-- Bytes in the byte registers and words in the word registers.
pub record IsCpu (r : Cpu) : Type 0 where
  pub a_lt : r.a < 256
  pub f_lt : r.f < 256
  pub b_lt : r.b < 256
  pub c_lt : r.c < 256
  pub d_lt : r.d < 256
  pub e_lt : r.e < 256
  pub h_lt : r.h < 256
  pub l_lt : r.l < 256
  pub sp_lt : r.sp < 65536
  pub pc_lt : r.pc < 65536
  pub memptr_lt : r.memptr < 65536
  pub pending_lt : r.ei_pending < 256
  pub af_lt : r.af_shadow < 65536
  pub bc_lt : r.bc_shadow < 65536
  pub de_lt : r.de_shadow < 65536
  pub hl_lt : r.hl_shadow < 65536

pub new-IsCpu : IsCpu new
unfolding new
new-IsCpu = ground arith

pub word-lt : (hi lo : ℕ) → hi < 256 → lo < 256 → word hi lo < 65536
unfolding word
word-lt hi lo hh hl = bit_or-lt 16 _ _ (omega arith) (omega arith)

pub and-lt : (x y : ℕ) → x < 256 → bit_and x y < 256
and-lt x y h = bit_and-lt 8 x y h

-- `x & 0xff` of any number.
pub and_low-lt : (x : ℕ) → bit_and x 0xff < 256
and_low-lt x = omega (arith, bit_and_mask 8 x)

pub or-lt : (x y : ℕ) → x < 256 → y < 256 → bit_or x y < 256
or-lt x y hx hy = bit_or-lt 8 x y hx hy

pub xor-lt : (x y : ℕ) → x < 256 → y < 256 → bit_xor x y < 256
xor-lt x y hx hy = bit_xor-lt 8 x y hx hy

pub put_flag-lt : (mask : ℕ) (v : Bool) (f : ℕ) → mask < 256 → f < 256 → put_flag mask v f < 256
unfolding put_flag
put_flag-lt mask true f hm hf = or-lt f mask hf hm
put_flag-lt mask false f hm hf = and-lt f (not8 mask) hf

pub undoc-lt : (result f : ℕ) → result < 256 → f < 256 → undoc result f < 256
unfolding undoc
undoc-lt result f hr hf = or-lt _ _ (and-lt f _ hf) (and-lt result _ hr)

pub u8-lt : (x : ℕ) → u8 x < 256
u8-lt x = omega arith

pub mask_c : flag_c < 256
mask_c = omega arith

pub mask_h : flag_h < 256
mask_h = omega arith

pub mask_n : flag_n < 256
mask_n = omega arith

pub mask_pv : flag_pv < 256
mask_pv = omega arith

pub mask_s : flag_s < 256
mask_s = omega arith

pub mask_z : flag_z < 256
mask_z = omega arith

pub no_flags : 0 < 256
no_flags = omega arith

-- The rules that show that an expression over the flags is a byte.
pub ruleset byte_rules = (
  put_flag-lt, undoc-lt, and-lt, or-lt, xor-lt, u8-lt, mask_c, mask_h, mask_n, mask_pv, mask_s,
  mask_z, no_flags,
)

pub add_flags-lt : (a m cy : ℕ) → add_flags a m cy < 256
unfolding add_flags
add_flags-lt a m cy = search byte_rules depth 12

pub sub_flags-lt : (a m cy : ℕ) → sub_flags a m cy < 256
unfolding sub_flags
sub_flags-lt a m cy = search byte_rules depth 12

pub logic_flags-lt : (half : Bool) (v : ℕ) → v < 256 → logic_flags half v < 256
unfolding logic_flags
logic_flags-lt half v hv = search byte_rules depth 12

pub inc_flags-lt : (v f : ℕ) → f < 256 → inc_flags v f < 256
unfolding inc_flags
inc_flags-lt v f hf = search byte_rules depth 12

pub dec_flags-lt : (v f : ℕ) → f < 256 → dec_flags v f < 256
unfolding dec_flags
dec_flags-lt v f hf = search byte_rules depth 12

pub if-both {ℓ m} :
    {A : Type ℓ} (P : A → Type m) (b : Bool) (x y : A) → P x → P y → P (if b then x else y)
if-both P true x y p q = p
if-both P false x y p q = q

pub alu_add-IsCpu : (m : ℕ) (c : Bool) (r : Cpu) → IsCpu r → IsCpu (alu_add m c r)
unfolding alu_add
alu_add-IsCpu m c r h = ground (arith, add_flags-lt r.a m (carry_in c r))

pub sub_a-IsCpu : (m : ℕ) (c : Bool) (r : Cpu) → IsCpu r → IsCpu (sub_a m c r)
unfolding sub_a alu_sub
sub_a-IsCpu m c r h = ground (arith, sub_flags-lt r.a m (carry_in c r))

pub alu_and-IsCpu : (m : ℕ) (r : Cpu) → IsCpu r → IsCpu (alu_and m r)
unfolding alu_and
alu_and-IsCpu m r h =
    let v : bit_and r.a m < 256 = and-lt r.a m h.a_lt in ground (arith, logic_flags-lt true _ v)

pub alu_or-IsCpu : (m : ℕ) (r : Cpu) → m < 256 → IsCpu r → IsCpu (alu_or m r)
unfolding alu_or
alu_or-IsCpu m r hm h =
    let v : bit_or r.a m < 256 = or-lt r.a m h.a_lt hm in ground (arith, logic_flags-lt false _ v)

pub alu_xor-IsCpu : (m : ℕ) (r : Cpu) → m < 256 → IsCpu r → IsCpu (alu_xor m r)
unfolding alu_xor
alu_xor-IsCpu m r hm h =
    let v : bit_xor r.a m < 256 = xor-lt r.a m h.a_lt hm in ground (arith, logic_flags-lt false _ v)

pub alu_cp-IsCpu : (m : ℕ) (r : Cpu) → m < 256 → IsCpu r → IsCpu (alu_cp m r)
unfolding alu_cp alu_sub
alu_cp-IsCpu m r hm h = ground (arith, undoc-lt m _ hm (sub_flags-lt r.a m (carry_in false r)))

pub do_inc-IsCpu : (v : ℕ) (r : Cpu) → IsCpu r → IsCpu (do_inc v r).1
do_inc-IsCpu v r h = ground (arith, inc_flags-lt v r.f h.f_lt)

pub do_dec-IsCpu : (v : ℕ) (r : Cpu) → IsCpu r → IsCpu (do_dec v r).1
do_dec-IsCpu v r h = ground (arith, dec_flags-lt v r.f h.f_lt)

pub write_r-IsCpu : (n v : ℕ) (r : Cpu) → v < 256 → IsCpu r → IsCpu (write_r n v r)
unfolding write_r
write_r-IsCpu n v r hv h = ground arith

pub read_r-lt : (n : ℕ) (r : Cpu) → IsCpu r → read_r n r < 256
unfolding read_r
read_r-lt n r h = ground arith
