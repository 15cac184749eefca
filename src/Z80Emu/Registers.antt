-- ===== src/Z80Emu/Registers.antt =====
-- crates/z80_emu/src/lib.rs: the registers keep their widths under what the arms of `step` do to
-- them.
use nes_to_sms.Base.{
  ℕ, ◌+◌, ◌*◌, ◌/◌, ◌<◌, ◌==◌, arith, Bool, true, false, not, if◌then◌else◌, u8, u16, bit_and,
  bit_or, bit_and-lt, bit_or-lt,
}
use nes_to_sms.Z80Emu.Cpu.{Cpu, bc, de, hl, put_flag, flag, flag_c, bit_of}
use nes_to_sms.Z80Emu.Bounds.{
  IsCpu, word-lt, and-lt, and_low-lt, or-lt, byte_rules, if-both, alu_add-IsCpu, sub_a-IsCpu,
  alu_and-IsCpu, alu_or-IsCpu, alu_xor-IsCpu, alu_cp-IsCpu,
}
use nes_to_sms.Z80Emu.Shifts.{shift_result, shift_flags, bit_flags}
use nes_to_sms.Z80Emu.Low.{
  add_hl, rotate_a, rlca, rrca, rla, rra, out_left, out_right, scf, ccf, cpl, ex_af, stored_memptr,
}
use nes_to_sms.Z80Emu.High.{alu, ei, di, ex_de_hl, exx}
use nes_to_sms.Z80Emu.Block.{repeat_if, copied, counted}
use nes_to_sms.Z80Emu.Extended.{
  load_interrupt, neg, neg_flags, sub16_flags, add16_flags, sbc_hl, adc_hl,
}

pub hl-lt : (r : Cpu) → IsCpu r → hl r < 65536
hl-lt r h = word-lt r.h r.l h.h_lt h.l_lt

pub bc-lt : (r : Cpu) → IsCpu r → bc r < 65536
bc-lt r h = word-lt r.b r.c h.b_lt h.c_lt

pub de-lt : (r : Cpu) → IsCpu r → de r < 65536
de-lt r h = word-lt r.d r.e h.d_lt h.e_lt

pub with_f-IsCpu : (f : ℕ) (r : Cpu) → f < 256 → IsCpu r → IsCpu (record r { f = f })
with_f-IsCpu f r hf h = ground arith

pub shift_result-lt : (n : ℕ) (c : Bool) (v : ℕ) → v < 256 → shift_result n c v < 256
unfolding shift_result
shift_result-lt n c v h =
    let p1 = or-lt (u8 (v * 2)) (v / 128) (omega arith) (omega arith) in
    let p2 = or-lt (v / 2) (u8 (v * 128)) (omega arith) (omega arith) in
    let p3 = or-lt (u8 (v * 2)) (bit_of c) (omega arith) (ground arith) in
    let p4 = or-lt (v / 2) (if c then 0x80 else 0) (omega arith) (ground arith) in
    let p5 = or-lt (v / 2) (bit_and v 0x80) (omega arith) (and-lt v 0x80 h) in
    let p6 = or-lt (u8 (v * 2)) 1 (omega arith) (omega arith) in ground arith

pub shift_flags-lt : (v : ℕ) (c : Bool) → v < 256 → shift_flags v c < 256
unfolding shift_flags
shift_flags-lt v c h = search byte_rules depth 12

pub bit_flags-lt : (n v shown f : ℕ) → shown < 256 → f < 256 → bit_flags n v shown f < 256
unfolding bit_flags
bit_flags-lt n v shown f hs hf = search byte_rules depth 12

pub add_hl-IsCpu : (pair : Cpu → ℕ) (r : Cpu) → IsCpu r → IsCpu (add_hl pair r)
unfolding add_hl
add_hl-IsCpu pair r h =
    let shown = and_low-lt ((hl r + pair r) / 256) in
    let flags : (add_hl pair r).f < 256 = search byte_rules depth 12 in ground arith

rotate_a-IsCpu :
    (rotated : Bool → ℕ → ℕ) (carry : ℕ → Bool) (r : Cpu)
    → rotated (flag flag_c r) r.a < 256
    → IsCpu r
    → IsCpu (rotate_a rotated carry r)
unfolding rotate_a
rotate_a-IsCpu rotated carry r ha h =
    let flags : (rotate_a rotated carry r).f < 256 = search byte_rules depth 12 in ground arith

pub rlca-IsCpu : (r : Cpu) → IsCpu r → IsCpu (rlca r)
unfolding rlca
rlca-IsCpu r h =
    rotate_a-IsCpu (λ c a. bit_or (u8 (a * 2)) (if out_left a then 1 else 0)) out_left r
      (or-lt (u8 (r.a * 2)) (if out_left r.a then 1 else 0) (omega arith) (ground arith)) h

pub rrca-IsCpu : (r : Cpu) → IsCpu r → IsCpu (rrca r)
unfolding rrca
rrca-IsCpu r h =
    rotate_a-IsCpu (λ c a. bit_or (a / 2) (if out_right a then 0x80 else 0)) out_right r
      (or-lt (r.a / 2) (if out_right r.a then 0x80 else 0) (omega (arith, h.a_lt)) (ground arith)) h

pub rla-IsCpu : (r : Cpu) → IsCpu r → IsCpu (rla r)
unfolding rla
rla-IsCpu r h =
    rotate_a-IsCpu (λ c a. bit_or (u8 (a * 2)) (if c then 1 else 0)) out_left r
      (or-lt (u8 (r.a * 2)) (if flag flag_c r then 1 else 0) (omega arith) (ground arith)) h

pub rra-IsCpu : (r : Cpu) → IsCpu r → IsCpu (rra r)
unfolding rra
rra-IsCpu r h =
    rotate_a-IsCpu (λ c a. bit_or (a / 2) (if c then 0x80 else 0)) out_right r
      (or-lt (r.a / 2) (if flag flag_c r then 0x80 else 0) (omega (arith, h.a_lt)) (ground arith)) h

pub scf-IsCpu : (r : Cpu) → IsCpu r → IsCpu (scf r)
unfolding scf
scf-IsCpu r h = let flags : (scf r).f < 256 = search byte_rules depth 12 in ground arith

pub ccf-IsCpu : (r : Cpu) → IsCpu r → IsCpu (ccf r)
unfolding ccf
ccf-IsCpu r h = let flags : (ccf r).f < 256 = search byte_rules depth 12 in ground arith

pub cpl-IsCpu : (r : Cpu) → IsCpu r → IsCpu (cpl r)
unfolding cpl
cpl-IsCpu r h = let flags : (cpl r).f < 256 = search byte_rules depth 12 in ground arith

pub ex_af-IsCpu : (r : Cpu) → IsCpu r → IsCpu (ex_af r)
unfolding ex_af
ex_af-IsCpu r h = ground (arith, word-lt r.a r.f h.a_lt h.f_lt, and_low-lt r.af_shadow)

pub exx-IsCpu : (r : Cpu) → IsCpu r → IsCpu (exx r)
unfolding exx
exx-IsCpu r h = ground (
  arith,
  bc-lt r h,
  de-lt r h,
  hl-lt r h,
  and_low-lt r.bc_shadow,
  and_low-lt r.de_shadow,
  and_low-lt r.hl_shadow,
)

pub ei-IsCpu : (r : Cpu) → IsCpu r → IsCpu (ei r)
unfolding ei
ei-IsCpu r h = ground arith

pub di-IsCpu : (r : Cpu) → IsCpu r → IsCpu (di r)
unfolding di
di-IsCpu r h = ground arith

pub ex_de_hl-IsCpu : (r : Cpu) → IsCpu r → IsCpu (ex_de_hl r)
unfolding ex_de_hl
ex_de_hl-IsCpu r h = ground arith

pub stored_memptr-lt : (addr a : ℕ) → a < 256 → stored_memptr addr a < 65536
unfolding stored_memptr
stored_memptr-lt addr a h = bit_or-lt 16 _ _ (bit_and-lt 16 _ _ (omega arith)) (omega arith)

pub alu-IsCpu : (n v : ℕ) (r : Cpu) → v < 256 → IsCpu r → IsCpu (alu n v r)
unfolding alu
alu-IsCpu n v r hv h =
    let P = λ (f : Cpu → Cpu). IsCpu (f r) in
    if-both P (n == 0) _ _ (alu_add-IsCpu v false r h) (
      if-both P (n == 1) _ _ (alu_add-IsCpu v true r h) (
        if-both P (n == 2) _ _ (sub_a-IsCpu v false r h) (
          if-both P (n == 3) _ _ (sub_a-IsCpu v true r h) (
            if-both P (n == 4) _ _ (alu_and-IsCpu v r h) (
              if-both P (n == 5) _ _ (alu_xor-IsCpu v r hv h)
                (if-both P (n == 6) _ _ (alu_or-IsCpu v r hv h) (alu_cp-IsCpu v r hv h)))))))

pub copied-IsCpu : (step : ℕ) (repeats : Bool) (r : Cpu) → IsCpu r → IsCpu (copied step repeats r)
unfolding copied repeat_if
copied-IsCpu step repeats r h =
    let count = u16 (bc r + 65535) in
    let f = put_flag 4 (not (count == 0)) (put_flag 16 false (put_flag 2 false r.f)) in
    let flags : f < 256 = search byte_rules depth 12 in ground arith

pub counted-IsCpu : (step : ℕ) (repeats : Bool) (r : Cpu) → IsCpu r → IsCpu (counted step repeats r)
unfolding counted repeat_if
counted-IsCpu step repeats r h =
    let f = put_flag 64 (u8 (r.b + 255) == 0) (put_flag 2 true r.f) in
    let flags : f < 256 = search byte_rules depth 12 in ground arith

pub load_interrupt-IsCpu : (r : Cpu) → IsCpu r → IsCpu (load_interrupt r)
unfolding load_interrupt
load_interrupt-IsCpu r h =
    let flags : (load_interrupt r).f < 256 = search byte_rules depth 12 in ground arith

neg_flags-lt : (v : ℕ) → neg_flags v < 256
unfolding neg_flags
neg_flags-lt v = search byte_rules depth 12

pub neg-IsCpu : (r : Cpu) → IsCpu r → IsCpu (neg r)
unfolding neg
neg-IsCpu r h = ground (arith, neg_flags-lt r.a)

sub16_flags-lt : (x y c f : ℕ) → f < 256 → sub16_flags x y c f < 256
unfolding sub16_flags
sub16_flags-lt x y c f h = search byte_rules depth 12

add16_flags-lt : (x y c f : ℕ) → f < 256 → add16_flags x y c f < 256
unfolding add16_flags
add16_flags-lt x y c f h = search byte_rules depth 12

pub sbc_hl-IsCpu : (pair : Cpu → ℕ) (r : Cpu) → IsCpu r → IsCpu (sbc_hl pair r)
unfolding sbc_hl
sbc_hl-IsCpu pair r h =
    ground (arith, sub16_flags-lt (hl r) (pair r) (bit_of (flag flag_c r)) r.f h.f_lt)

pub adc_hl-IsCpu : (pair : Cpu → ℕ) (r : Cpu) → IsCpu r → IsCpu (adc_hl pair r)
unfolding adc_hl
adc_hl-IsCpu pair r h =
    ground (arith, add16_flags-lt (hl r) (pair r) (bit_of (flag flag_c r)) r.f h.f_lt)
