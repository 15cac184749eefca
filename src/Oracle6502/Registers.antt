-- ===== src/Oracle6502/Registers.antt =====
-- crates/oracle_6502/src/lib.rs: the register file stays well formed under the operations that
-- touch no bus.
use nes_to_sms.Base.{
  ℕ, ◌+◌, ◌^◌, ◌<◌, ◌≤◌, ◌≢◌, arith, Bool, true, false, bit_and, bit_and-lt, bit_or-lt, bit_xor-lt,
  bit_and_mask,
}
use nes_to_sms.Cpu6502.Isa.{Operand, rel}
use nes_to_sms.Oracle6502.Cpu.{
  Cpu, new, set_flag, set_nz, do_adc, do_sbc, do_cmp, branch, rotate_left, rotate_right, bit_of,
}
use nes_to_sms.Oracle6502.Execute.{and_acc, or_acc, xor_acc}
use nes_to_sms.Oracle6502.Status.{IsStatus, put_flag-IsStatus}

-- Byte registers, a 16-bit program counter, and a status byte with bit 5 set and bit 4 clear.
pub record IsCpu (c : Cpu) : Type 0 where
  pub a_byte : c.a < 256
  pub x_byte : c.x < 256
  pub y_byte : c.y < 256
  pub sp_byte : c.sp < 256
  pub pc_word : c.pc < 65536
  pub status : IsStatus c.p

pub new-IsCpu : IsCpu new
unfolding new
new-IsCpu = omega arith

pub set_flag-IsCpu :
    (k : ℕ) (v : Bool) (c : Cpu) → k < 8 → k ≢ 4 → k ≢ 5 → IsCpu c → IsCpu (set_flag (2 ^ k) v c)
unfolding set_flag
set_flag-IsCpu k v c hk n4 n5 h = record {
  a_byte = h.a_byte;
  x_byte = h.x_byte;
  y_byte = h.y_byte;
  sp_byte = h.sp_byte;
  pc_word = h.pc_word;
  status = put_flag-IsStatus k v c.p hk n4 n5 h.status;
}

pub set_nz-IsCpu : (v : ℕ) (c : Cpu) → IsCpu c → IsCpu (set_nz v c)
unfolding set_nz
set_nz-IsCpu v c h =
    set_flag-IsCpu 1 _ _ (omega arith) (omega arith) (omega arith)
      (set_flag-IsCpu 7 _ c (omega arith) (omega arith) (omega arith) h)

pub with_a-IsCpu : (v : ℕ) (c : Cpu) → v < 256 → IsCpu c → IsCpu (record c { a = v })
with_a-IsCpu v c hv h = ground arith

pub with_x-IsCpu : (v : ℕ) (c : Cpu) → v < 256 → IsCpu c → IsCpu (record c { x = v })
with_x-IsCpu v c hv h = ground arith

pub with_y-IsCpu : (v : ℕ) (c : Cpu) → v < 256 → IsCpu c → IsCpu (record c { y = v })
with_y-IsCpu v c hv h = ground arith

pub with_sp-IsCpu : (v : ℕ) (c : Cpu) → v < 256 → IsCpu c → IsCpu (record c { sp = v })
with_sp-IsCpu v c hv h = ground arith

pub with_pc-IsCpu : (v : ℕ) (c : Cpu) → v < 65536 → IsCpu c → IsCpu (record c { pc = v })
with_pc-IsCpu v c hv h = ground arith

pub with_p-IsCpu : (v : ℕ) (c : Cpu) → IsStatus v → IsCpu c → IsCpu (record c { p = v })
with_p-IsCpu v c hv h = ground arith

pub do_adc-IsCpu : (m : ℕ) (c : Cpu) → m < 256 → IsCpu c → IsCpu (do_adc m c)
unfolding do_adc
do_adc-IsCpu m c hm h =
    let low = bit_and_mask 8 (c.a + m + bit_and c.p 1) in
    set_nz-IsCpu _ _ (
      with_a-IsCpu _ _ (omega (arith, low)) (
        set_flag-IsCpu 6 _ _ (omega arith) (omega arith) (omega arith)
          (set_flag-IsCpu 0 _ c (omega arith) (omega arith) (omega arith) h)))

pub do_sbc-IsCpu : (m : ℕ) (c : Cpu) → m < 256 → IsCpu c → IsCpu (do_sbc m c)
unfolding do_sbc
do_sbc-IsCpu m c hm h = do_adc-IsCpu _ c (bit_xor-lt 8 m 0xff hm (omega arith)) h

pub do_cmp-IsCpu : (reg m : ℕ) (c : Cpu) → IsCpu c → IsCpu (do_cmp reg m c)
unfolding do_cmp
do_cmp-IsCpu reg m c h = set_flag-IsCpu 1 _ _ (omega arith) (omega arith) (omega arith) (
    set_flag-IsCpu 7 _ _ (omega arith) (omega arith) (omega arith)
      (set_flag-IsCpu 0 _ c (omega arith) (omega arith) (omega arith) h))

pub and_acc-IsCpu : (v : ℕ) (c : Cpu) → v < 256 → IsCpu c → IsCpu (and_acc v c)
unfolding and_acc
and_acc-IsCpu v c hv h = set_nz-IsCpu _ _ (with_a-IsCpu _ c (bit_and-lt 8 c.a v h.a_byte) h)

pub or_acc-IsCpu : (v : ℕ) (c : Cpu) → v < 256 → IsCpu c → IsCpu (or_acc v c)
unfolding or_acc
or_acc-IsCpu v c hv h = set_nz-IsCpu _ _ (with_a-IsCpu _ c (bit_or-lt 8 c.a v h.a_byte hv) h)

pub xor_acc-IsCpu : (v : ℕ) (c : Cpu) → v < 256 → IsCpu c → IsCpu (xor_acc v c)
unfolding xor_acc
xor_acc-IsCpu v c hv h = set_nz-IsCpu _ _ (with_a-IsCpu _ c (bit_xor-lt 8 c.a v h.a_byte hv) h)

pub branch-IsCpu :
    (operand : Operand) (taken : Bool) (c : Cpu) → IsCpu c → IsCpu (branch operand taken c)
unfolding branch
branch-IsCpu (rel b) taken c h = ground arith
branch-IsCpu _ taken c h = ground arith

-- The shifts and rotations give bytes.
bit_of-le : (b : Bool) → bit_of b ≤ 1
bit_of-le true = omega arith
bit_of-le false = omega arith

pub rotate_left-lt : (b : Bool) (v : ℕ) → rotate_left b v < 256
rotate_left-lt b v = bit_or-lt 8 _ _ (omega arith) (omega (arith, bit_of-le b))

pub rotate_right-lt : (b : Bool) (v : ℕ) → v < 256 → rotate_right b v < 256
rotate_right-lt b v h = bit_or-lt 8 _ _ (omega arith) (omega (arith, bit_of-le b))
