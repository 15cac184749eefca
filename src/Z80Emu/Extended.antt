-- ===== src/Z80Emu/Extended.antt =====
-- crates/z80_emu/src/lib.rs: the opcodes after the prefix ED.
use nes_to_sms.Base.{
  ℕ, ◌+◌, ◌-◌, ◌==◌, ltb, u8, u16, has_bits, bit_and, bit_xor, true, false, not, ◌&&◌, some, List,
  [], ◌∷◌,
}
use nes_to_sms.Z80Emu.Cpu.{
  Cpu, flag_c, flag_h, flag_n, flag_pv, flag_s, flag_z, word, high, low, bc, de, hl, set_bc, set_de,
  set_hl, flag, put_flag, undoc, bit_of,
}
use nes_to_sms.Z80Emu.Machine.{
  Bus, M, step_error, unsupported_opcode, pure, fail, ◌>>=◌, ◌>>◌, get_cpu, modify, read, write,
  fetch_byte, fetch_word, arm_of,
}
use nes_to_sms.Z80Emu.Block.{copy_block, in_block, out_block}

-- LD A,I and LD A,R.
unfoldable pub load_interrupt : Cpu → Cpu
load_interrupt r = record r {
  a = 0;
  f = undoc 0 (
      put_flag flag_pv r.iff2 (
        put_flag flag_n false (
          put_flag flag_h false
            (put_flag flag_z true (put_flag flag_s false (bit_and r.f flag_c))))));
}

unfoldable pub neg_flags : ℕ → ℕ
neg_flags orig =
    let result = u8 (256 - orig) in
    put_flag flag_z (result == 0) (
      put_flag flag_s (has_bits result 0x80) (
        put_flag flag_h (not (bit_and orig 0x0f == 0)) (
          put_flag flag_pv (orig == 0x80)
            (put_flag flag_c (not (orig == 0)) (put_flag flag_n true 0)))))

unfoldable pub neg : Cpu → Cpu
unfolding neg_flags
neg r = record r { a = u8 (256 - r.a); f = neg_flags r.a }

-- The flags of the difference of two words, on the flags before.
unfoldable pub sub16_flags : ℕ → ℕ → ℕ → ℕ → ℕ
sub16_flags left right cin f =
    let result = u16 (left + 131072 - right - cin) in
    let overflow = has_bits (bit_xor left right) 0x8000 && has_bits (bit_xor left result) 0x8000 in
    put_flag flag_z (result == 0) (
      put_flag flag_s (has_bits result 0x8000) (
        put_flag flag_pv overflow (
          put_flag flag_h (ltb (bit_and left 0x0fff) (bit_and right 0x0fff + cin))
            (put_flag flag_c (ltb left (right + cin)) (put_flag flag_n true f)))))

unfoldable pub add16_flags : ℕ → ℕ → ℕ → ℕ → ℕ
add16_flags left right cin f =
    let sum = left + right + cin in
    let result = u16 sum in
    let overflow =
      not (has_bits (bit_xor left right) 0x8000) && has_bits (bit_xor left result) 0x8000 in
    put_flag flag_z (result == 0) (
      put_flag flag_s (has_bits result 0x8000) (
        put_flag flag_pv overflow (
          put_flag flag_h (ltb 0x0fff (bit_and left 0x0fff + bit_and right 0x0fff + cin))
            (put_flag flag_c (ltb 0xffff sum) (put_flag flag_n false f)))))

-- SBC HL and ADC HL with a register pair.
unfoldable pub sbc_hl : (Cpu → ℕ) → Cpu → Cpu
unfolding sub16_flags
sbc_hl pair r =
    let cin = bit_of (flag flag_c r) in
    record (set_hl (u16 (hl r + 131072 - pair r - cin)) r) {
      memptr = u16 (hl r + 1);
      f = sub16_flags (hl r) (pair r) cin r.f;
    }

unfoldable pub adc_hl : (Cpu → ℕ) → Cpu → Cpu
unfolding add16_flags
adc_hl pair r =
    let cin = bit_of (flag flag_c r) in
    record (set_hl (u16 (hl r + pair r + cin)) r) {
      memptr = u16 (hl r + 1);
      f = add16_flags (hl r) (pair r) cin r.f;
    }

module _ {bus : Bus} where
  -- RETN and RETI.
  unfoldable pub return_interrupt : M bus (Unit {0})
  return_interrupt = do
    r ← get_cpu
    lo ← read r.sp
    hi ← read (u16 (r.sp + 1))
    modify (λ r. record r {
      sp = u16 (r.sp + 2);
      pc = word hi lo;
      memptr = word hi lo;
      iff1 = r.iff2;
      ei_pending = 0;
    })

  unfoldable pub store_pair_abs : (Cpu → ℕ) → M bus (Unit {0})
  store_pair_abs pair = do
    addr ← fetch_word
    r ← get_cpu
    write addr (low (pair r))
    write (u16 (addr + 1)) (high (pair r))
    modify (λ r. record r { memptr = u16 (addr + 1) })

  unfoldable pub load_pair_abs : (ℕ → Cpu → Cpu) → M bus (Unit {0})
  load_pair_abs put = do
    addr ← fetch_word
    lo ← read addr
    hi ← read (u16 (addr + 1))
    modify (λ r. record (put (word hi lo) r) { memptr = u16 (addr + 1) })

  unfoldable pub interrupt_arms : List (ℕ × M bus (Unit {0}))
  unfolding load_interrupt neg return_interrupt
  interrupt_arms =
      (0x46, pure tt)
      ∷ (0x66, pure tt)
      ∷ (0x56, pure tt)
      ∷ (0x76, pure tt)
      ∷ (0x5e, pure tt)
      ∷ (0x7e, pure tt)
      ∷ (0x57, modify load_interrupt)
      ∷ (0x5f, modify load_interrupt)
      ∷ (0x45, return_interrupt)
      ∷ (0x4d, return_interrupt)
      ∷ (0x55, return_interrupt)
      ∷ (0x5d, return_interrupt)
      ∷ (0x65, return_interrupt)
      ∷ (0x6d, return_interrupt)
      ∷ (0x75, return_interrupt)
      ∷ (0x7d, return_interrupt)
      ∷ (0x44, modify neg)
      ∷ (0x4c, modify neg)
      ∷ (0x54, modify neg)
      ∷ (0x5c, modify neg)
      ∷ (0x64, modify neg)
      ∷ (0x6c, modify neg)
      ∷ (0x74, modify neg)
      ∷ (0x7c, modify neg)
      ∷ []

  unfoldable pub pair_arms : List (ℕ × M bus (Unit {0}))
  unfolding store_pair_abs load_pair_abs sbc_hl adc_hl
  pair_arms =
      (0x43, store_pair_abs bc)
      ∷ (0x53, store_pair_abs de)
      ∷ (0x63, store_pair_abs hl)
      ∷ (0x73, store_pair_abs (λ r. r.sp))
      ∷ (0x4b, load_pair_abs set_bc)
      ∷ (0x5b, load_pair_abs set_de)
      ∷ (0x6b, load_pair_abs set_hl)
      ∷ (0x7b, load_pair_abs (λ v r. record r { sp = v }))
      ∷ (0x42, modify (sbc_hl bc))
      ∷ (0x52, modify (sbc_hl de))
      ∷ (0x62, modify (sbc_hl hl))
      ∷ (0x72, modify (sbc_hl (λ r. r.sp)))
      ∷ (0x4a, modify (adc_hl bc))
      ∷ (0x5a, modify (adc_hl de))
      ∷ (0x6a, modify (adc_hl hl))
      ∷ (0x7a, modify (adc_hl (λ r. r.sp)))
      ∷ []

  unfoldable pub block_arms : List (ℕ × M bus (Unit {0}))
  block_arms =
      (0xa0, copy_block 1 false)
      ∷ (0xb0, copy_block 1 true)
      ∷ (0xa8, copy_block 65535 false)
      ∷ (0xb8, copy_block 65535 true)
      ∷ (0xa3, out_block 1 false)
      ∷ (0xb3, out_block 1 true)
      ∷ (0xa2, in_block 1 false)
      ∷ (0xb2, in_block 1 true)
      ∷ (0xab, out_block 65535 false)
      ∷ (0xbb, out_block 65535 true)
      ∷ (0xaa, in_block 65535 false)
      ∷ (0xba, in_block 65535 true)
      ∷ []

  unfoldable pub step_ed : ℕ → M bus (Unit {0})
  step_ed pc_op = do
    ed ← fetch_byte
    arm_of ed interrupt_arms (
        arm_of ed pair_arms
          (arm_of ed block_arms (fail (step_error (unsupported_opcode pc_op ed (some 0xed))))))
