-- ===== src/Oracle6502/Cpu.antt =====
-- crates/oracle_6502/src/lib.rs: the register file, the status flags and the operations that
-- touch no bus. A register is a number below 256, the program counter one below 65536.
use nes_to_sms.Base.{
  ℕ, ◌+◌, ◌-◌, ◌*◌, ◌/◌, ◌==◌, ltb, leb, u8, u16, not8, has_bits, bit_and, bit_or, bit_xor, Bool,
  true, false, if◌then◌else◌,
}
use nes_to_sms.Cpu6502.Isa.{Operand, rel, sign_extend}

abbrev pub flag_c : ℕ
flag_c = 0x01

abbrev pub flag_z : ℕ
flag_z = 0x02

abbrev pub flag_i : ℕ
flag_i = 0x04

abbrev pub flag_d : ℕ
flag_d = 0x08

abbrev pub flag_b : ℕ
flag_b = 0x10

abbrev pub flag_u : ℕ
flag_u = 0x20

abbrev pub flag_v : ℕ
flag_v = 0x40

abbrev pub flag_n : ℕ
flag_n = 0x80

pub record Cpu : Type 0 where
  pub a : ℕ
  pub x : ℕ
  pub y : ℕ
  pub sp : ℕ
  pub pc : ℕ
  pub p : ℕ

unfoldable pub new : Cpu
new = record { a = 0; x = 0; y = 0; sp = 0xfd; pc = 0; p = bit_or flag_i flag_u }

unfoldable pub flag : ℕ → Cpu → Bool
flag f c = has_bits c.p f

-- `self.p |= f` and `self.p &= !f`.
unfoldable pub put_flag : ℕ → Bool → ℕ → ℕ
put_flag f v p = if v then bit_or p f else bit_and p (not8 f)

unfoldable pub set_flag : ℕ → Bool → Cpu → Cpu
set_flag f v c = record c { p = put_flag f v c.p }

unfoldable pub set_nz : ℕ → Cpu → Cpu
unfolding set_flag
set_nz v c = set_flag flag_z (v == 0) (set_flag flag_n (has_bits v 0x80) c)

-- `!(a ^ m16) & (a ^ t) & 0x80` on 16-bit values, where `!` leaves bit 7 of `a ^ m16` inverted.
unfoldable pub adc_overflow : ℕ → ℕ → ℕ → Bool
adc_overflow a m t = has_bits (bit_and (0xffff - bit_xor a m) (bit_xor a t)) 0x80

unfoldable pub do_adc : ℕ → Cpu → Cpu
unfolding set_flag
do_adc m c =
    let t = c.a + m + bit_and c.p flag_c in
    let result = bit_and t 0xff in
    let flagged = set_flag flag_v (adc_overflow c.a m t) (set_flag flag_c (ltb 0xff t) c) in
    set_nz result (record flagged { a = result })

unfoldable pub do_sbc : ℕ → Cpu → Cpu
unfolding do_adc
do_sbc m c = do_adc (bit_xor m 0xff) c

-- `t as u8` for the signed difference `t = reg - m`.
unfoldable pub do_cmp : ℕ → ℕ → Cpu → Cpu
unfolding set_flag
do_cmp reg m c =
    set_flag flag_z (reg == m)
      (set_flag flag_n (has_bits (u8 (reg + 256 - m)) 0x80) (set_flag flag_c (leb m reg) c))

unfoldable pub branch_by : Operand → Cpu → Cpu
branch_by (rel b) c = record c { pc = u16 (c.pc + sign_extend b) }
branch_by _ c = c

unfoldable pub branch : Operand → Bool → Cpu → Cpu
unfolding branch_by
branch operand taken c = if taken then branch_by operand c else c

-- `v << 1`, `v >> 1` and the two rotations through the carry, on a byte.
abbrev pub shift_left : ℕ → ℕ
shift_left v = u8 (v * 2)

abbrev pub shift_right : ℕ → ℕ
shift_right v = v / 2

abbrev pub bit_of : Bool → ℕ
bit_of true = 1
bit_of false = 0

abbrev pub rotate_left : Bool → ℕ → ℕ
rotate_left carry v = bit_or (shift_left v) (bit_of carry)

abbrev pub rotate_right : Bool → ℕ → ℕ
rotate_right carry v = bit_or (shift_right v) (bit_of carry * 128)
