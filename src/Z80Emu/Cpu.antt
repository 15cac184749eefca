-- ===== src/Z80Emu/Cpu.antt =====
-- crates/z80_emu/src/lib.rs: the register file, the flags and the arithmetic on them.
use nes_to_sms.Base.{
  ℕ, ◌+◌, ◌-◌, ◌*◌, ◌/◌, ◌%◌, ◌==◌, ltb, leb, u8, not8, has_bits, bit_and, bit_or, bit_xor, Bool,
  true, false, ◌&&◌, ◌||◌, if◌then◌else◌,
}

abbrev pub flag_c : ℕ
flag_c = 0x01

abbrev pub flag_x : ℕ
flag_x = 0x08

abbrev pub flag_y : ℕ
flag_y = 0x20

abbrev pub flag_n : ℕ
flag_n = 0x02

abbrev pub flag_pv : ℕ
flag_pv = 0x04

abbrev pub flag_h : ℕ
flag_h = 0x10

abbrev pub flag_z : ℕ
flag_z = 0x40

abbrev pub flag_s : ℕ
flag_s = 0x80

-- `matches!(op, lo..=hi)`.
abbrev pub within : ℕ → ℕ → ℕ → Bool
within op low high = leb low op && leb op high

-- The arms of `approx_cycles`, from the top.
unfoldable pub approx_cycles : ℕ → ℕ
approx_cycles op =
    if op == 0x76
    then 4
    else (if op == 0xcd
        then 17
        else (if op == 0xc4
              || (op == 0xcc
                  || (op == 0xd4
                      || (op == 0xdc
                          || (op == 0xe4 || (op == 0xec || (op == 0xf4 || op == 0xfc))))))
            then 14
            else (if op == 0xc9
                then 10
                else (if op == 0xc0
                      || (op == 0xc8
                          || (op == 0xd0
                              || (op == 0xd8
                                  || (op == 0xe0 || (op == 0xe8 || (op == 0xf0 || op == 0xf8))))))
                    then 8
                    else (if op == 0xc3
                        then 10
                        else (if op == 0xc2
                              || (op == 0xca
                                  || (op == 0xd2
                                      || (op == 0xda
                                          || (op == 0xe2
                                              || (op == 0xea || (op == 0xf2 || op == 0xfa))))))
                            then 10
                            else (if op == 0x18
                                then 12
                                else (if op == 0x20 || (op == 0x28 || (op == 0x30 || op == 0x38))
                                    then 10
                                    else (if op == 0xc5
                                          || (op == 0xd5 || (op == 0xe5 || op == 0xf5))
                                        then 11
                                        else (if op == 0xc1
                                              || (op == 0xd1 || (op == 0xe1 || op == 0xf1))
                                            then 10
                                            else (if op == 0x3a || op == 0x32
                                                then 13
                                                else (if op == 0x2a || op == 0x22
                                                    then 16
                                                    else (if op == 0x36
                                                        then 10
                                                        else (if op == 0x34 || op == 0x35
                                                            then 11
                                                            else (if op == 0x46
                                                            || (op == 0x4e
                                                            || (op == 0x56
                                                            || (op == 0x5e
                                                            || (op == 0x66
                                                            || (op == 0x6e || op == 0x7e)))))
                                                            then 7
                                                            else (if within op 0x70 0x77
                                                            then 7
                                                            else (if op == 0x86
                                                            || (op == 0x8e
                                                            || (op == 0x96
                                                            || (op == 0x9e
                                                            || (op == 0xa6
                                                            || (op == 0xae
                                                            || (op == 0xb6 || op == 0xbe))))))
                                                            then 7
                                                            else (if op == 0x0a
                                                            || (op == 0x1a
                                                            || (op == 0x02 || op == 0x12))
                                                            then 7
                                                            else (if op == 0x01
                                                            || (op == 0x11
                                                            || (op == 0x21 || op == 0x31))
                                                            then 10
                                                            else (if op == 0xcb
                                                            then 11
                                                            else (if op == 0xed
                                                            then 14
                                                            else (if op == 0xdd || op == 0xfd
                                                            then 15
                                                            else 5))))))))))))))))))))))

pub record Cpu : Type 0 where
  pub a : ℕ
  pub f : ℕ
  pub b : ℕ
  pub c : ℕ
  pub d : ℕ
  pub e : ℕ
  pub h : ℕ
  pub l : ℕ
  pub sp : ℕ
  pub pc : ℕ
  pub memptr : ℕ
  pub halted : Bool
  pub iff1 : Bool
  pub iff2 : Bool
  pub ei_pending : ℕ
  pub af_shadow : ℕ
  pub bc_shadow : ℕ
  pub de_shadow : ℕ
  pub hl_shadow : ℕ
  pub cycles : ℕ

unfoldable pub new : Cpu
new = record {
  a = 0;
  f = 0;
  b = 0;
  c = 0;
  d = 0;
  e = 0;
  h = 0;
  l = 0;
  sp = 0;
  pc = 0;
  memptr = 0;
  halted = false;
  iff1 = false;
  iff2 = false;
  ei_pending = 0;
  af_shadow = 0;
  bc_shadow = 0;
  de_shadow = 0;
  hl_shadow = 0;
  cycles = 0;
}

-- `((hi as u16) << 8) | lo as u16`.
unfoldable pub word : ℕ → ℕ → ℕ
word hi lo = bit_or (hi * 256) lo

-- The high and the low byte of a word.
abbrev pub high : ℕ → ℕ
high v = u8 (v / 256)

abbrev pub low : ℕ → ℕ
low v = u8 v

abbrev pub af : Cpu → ℕ
af r = word r.a r.f

abbrev pub bc : Cpu → ℕ
bc r = word r.b r.c

abbrev pub de : Cpu → ℕ
de r = word r.d r.e

abbrev pub hl : Cpu → ℕ
hl r = word r.h r.l

abbrev pub set_af : ℕ → Cpu → Cpu
set_af v r = record r { a = high v; f = low v }

abbrev pub set_bc : ℕ → Cpu → Cpu
set_bc v r = record r { b = high v; c = low v }

abbrev pub set_de : ℕ → Cpu → Cpu
set_de v r = record r { d = high v; e = low v }

abbrev pub set_hl : ℕ → Cpu → Cpu
set_hl v r = record r { h = high v; l = low v }

abbrev pub flag : ℕ → Cpu → Bool
flag mask r = has_bits r.f mask

-- `self.f |= mask` and `self.f &= !mask`.
unfoldable pub put_flag : ℕ → Bool → ℕ → ℕ
put_flag mask val f = if val then bit_or f mask else bit_and f (not8 mask)

abbrev pub set_flag : ℕ → Bool → Cpu → Cpu
set_flag mask val r = record r { f = put_flag mask val r.f }

-- `(f & !(FLAG_X | FLAG_Y)) | (result & (FLAG_X | FLAG_Y))`.
unfoldable pub undoc : ℕ → ℕ → ℕ
undoc result f = bit_or (bit_and f (not8 0x28)) (bit_and result 0x28)

abbrev pub set_undoc : ℕ → Cpu → Cpu
set_undoc result r = record r { f = undoc result r.f }

abbrev pub bit_of : Bool → ℕ
bit_of b = if b then 1 else 0

abbrev pub carry_in : Bool → Cpu → ℕ
carry_in with_carry r = bit_of (with_carry && flag flag_c r)

-- `v.count_ones()` of a byte.
unfoldable pub count_ones : ℕ → ℕ
count_ones v =
    v % 2 + v / 2 % 2 + v / 4 % 2 + v / 8 % 2 + v / 16 % 2 + v / 32 % 2 + v / 64 % 2 + v / 128 % 2

unfoldable pub parity : ℕ → Bool
unfolding count_ones
parity v = count_ones v % 2 == 0

-- The flags of an addition, set one after the other on 0.
unfoldable pub add_flags : ℕ → ℕ → ℕ → ℕ
add_flags a operand cy =
    let result16 = a + operand + cy in
    let result = u8 result16 in
    let half = ltb 0x0f (bit_and a 0x0f + bit_and operand 0x0f + cy) in
    let overflow = has_bits (bit_and (not8 (bit_xor a operand)) (bit_xor a result)) 0x80 in
    undoc result (
      put_flag flag_c (ltb 0xff result16) (
        put_flag flag_pv overflow (
          put_flag flag_h half
            (put_flag flag_z (result == 0) (put_flag flag_s (has_bits result 0x80) 0)))))

unfoldable pub alu_add : ℕ → Bool → Cpu → Cpu
alu_add operand with_carry r =
    let cy = carry_in with_carry r in
    record r { f = add_flags r.a operand cy; a = u8 (r.a + operand + cy) }

-- `(a as i16 - operand as i16 - cy as i16) as u8`.
abbrev pub difference : ℕ → ℕ → ℕ → ℕ
difference a operand cy = u8 (a + 512 - operand - cy)

unfoldable pub sub_flags : ℕ → ℕ → ℕ → ℕ
sub_flags a operand cy =
    let result = difference a operand cy in
    let half = ltb (bit_and a 0x0f) (bit_and operand 0x0f + cy) in
    let overflow = has_bits (bit_and (bit_xor a operand) (bit_xor a result)) 0x80 in
    undoc result (
      put_flag flag_c (ltb a (operand + cy)) (
        put_flag flag_n true (
          put_flag flag_pv overflow (
            put_flag flag_h half
              (put_flag flag_z (result == 0) (put_flag flag_s (has_bits result 0x80) 0))))))

-- `alu_sub` answers its result and leaves the accumulator to the caller.
unfoldable pub alu_sub : ℕ → Bool → Cpu → ℕ × Cpu
alu_sub operand with_carry r =
    let cy = carry_in with_carry r in
    (difference r.a operand cy, record r { f = sub_flags r.a operand cy })

-- `let r = self.alu_sub(..); self.a = r`.
unfoldable pub sub_a : ℕ → Bool → Cpu → Cpu
unfolding alu_sub
sub_a operand with_carry r = record (alu_sub operand with_carry r).1 {
  a = (alu_sub operand with_carry r).0;
}

-- The flags of AND, OR and XOR; `half` is set by AND.
unfoldable pub logic_flags : Bool → ℕ → ℕ
logic_flags half v = undoc v (
    put_flag flag_pv (parity v)
      (put_flag flag_h half (put_flag flag_z (v == 0) (put_flag flag_s (has_bits v 0x80) 0))))

unfoldable pub alu_and : ℕ → Cpu → Cpu
alu_and operand r = let v = bit_and r.a operand in record r { a = v; f = logic_flags true v }

unfoldable pub alu_or : ℕ → Cpu → Cpu
alu_or operand r = let v = bit_or r.a operand in record r { a = v; f = logic_flags false v }

unfoldable pub alu_xor : ℕ → Cpu → Cpu
alu_xor operand r = let v = bit_xor r.a operand in record r { a = v; f = logic_flags false v }

-- The subtraction without its result; flags 5 and 3 are the operand's.
unfoldable pub alu_cp : ℕ → Cpu → Cpu
unfolding alu_sub
alu_cp operand r = set_undoc operand (alu_sub operand false r).1

unfoldable pub inc_flags : ℕ → ℕ → ℕ
inc_flags val f =
    let result = u8 (val + 1) in
    undoc result (
      put_flag flag_pv (val == 0x7f) (
        put_flag flag_h (bit_and val 0x0f == 0x0f) (
          put_flag flag_z (result == 0)
            (put_flag flag_s (has_bits result 0x80) (bit_and f flag_c)))))

unfoldable pub dec_flags : ℕ → ℕ → ℕ
dec_flags val f =
    let result = u8 (val + 255) in
    put_flag flag_n true (
      undoc result (
        put_flag flag_pv (val == 0x80) (
          put_flag flag_h (bit_and val 0x0f == 0) (
            put_flag flag_z (result == 0)
              (put_flag flag_s (has_bits result 0x80) (bit_and f flag_c))))))

-- The new flags; the result is the byte that follows or precedes.
abbrev pub do_inc : ℕ → Cpu → ℕ × Cpu
do_inc val r = (u8 (val + 1), record r { f = inc_flags val r.f })

abbrev pub do_dec : ℕ → Cpu → ℕ × Cpu
do_dec val r = (u8 (val + 255), record r { f = dec_flags val r.f })

-- Register numbers of the opcodes; 6 is `(HL)` and no register.
unfoldable pub read_r : ℕ → Cpu → ℕ
read_r n r =
    if n == 0
    then r.b
    else (if n == 1
        then r.c
        else (if n == 2
            then r.d
            else (if n == 3
                then r.e
                else (if n == 4
                    then r.h
                    else (if n == 5 then r.l else (if n == 7 then r.a else 0))))))

unfoldable pub write_r : ℕ → ℕ → Cpu → Cpu
write_r n val r =
    if n == 0
    then record r { b = val }
    else (if n == 1
        then record r { c = val }
        else (if n == 2
            then record r { d = val }
            else (if n == 3
                then record r { e = val }
                else (if n == 4
                    then record r { h = val }
                    else (if n == 5
                        then record r { l = val }
                        else (if n == 7 then record r { a = val } else r))))))
