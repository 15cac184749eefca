-- ===== src/Z80Emu/ExtendedSafety.antt =====
-- crates/z80_emu/src/lib.rs: the opcodes after the prefixes CB and ED keep the machine well formed.
use nes_to_sms.Base.{
  ℕ, zero, suc, ◌/◌, ◌^◌, ◌<◌, ◌==◌, arith, Bool, true, false, not8, bit_and, bit_and_mask,
  two-pow-lt, if◌then◌else◌,
}
use nes_to_sms.Z80Emu.Cpu.{Cpu, word, bc, de, hl, set_bc, set_de, set_hl, high, low, flag, flag_c}
use nes_to_sms.Z80Emu.Machine.{Bus, M, panic, fail}
use nes_to_sms.Z80Emu.Bounds.{IsCpu, word-lt, and-lt, or-lt}
use nes_to_sms.Z80Emu.Registers.{
  shift_result-lt, shift_flags-lt, bit_flags-lt, with_f-IsCpu, copied-IsCpu, counted-IsCpu,
  load_interrupt-IsCpu, neg-IsCpu, sbc_hl-IsCpu, adc_hl-IsCpu,
}
use nes_to_sms.Z80Emu.Shifts.{shift_result, shift_carry, rotate_or_shift, test_bit, step_cb}
use nes_to_sms.Z80Emu.Block.{copy_block, out_block, in_block}
use nes_to_sms.Z80Emu.Extended.{
  return_interrupt, store_pair_abs, load_pair_abs, interrupt_arms, pair_arms, block_arms, step_ed,
}
use nes_to_sms.Z80Emu.Hoare.{
  ByteBus, Safe, ArmsSafe, no_arms, ◌⊳◌, Any, pure-Safe, fail-Safe, bind-Safe, then-Safe,
  get_cpu-Safe, modify-Safe, read-Safe, write-Safe, in_port-Safe, out_port-Safe, arm_of-Safe,
  fetch_byte-Safe, fetch_word-Safe, read_operand-Safe, write_operand-Safe,
}

module _ {bus : Bus} {laws : ByteBus bus} where
  rotate_or_shift-Safe : (n r v : ℕ) → v < 256 → Safe laws Any (rotate_or_shift n r v)
  unfolding rotate_or_shift
  rotate_or_shift-Safe n r v hv = bind-Safe get_cpu-Safe λ c hc.
      let result = shift_result n (flag flag_c c) v in
      let ok : result < 256 = shift_result-lt n (flag flag_c c) v hv in
      then-Safe (modify-Safe λ q h. with_f-IsCpu _ q (shift_flags-lt result (shift_carry n v) ok) h)
        (write_operand-Safe r result ok)

  test_bit-Safe : (n r v : ℕ) → v < 256 → Safe laws Any (test_bit n r v)
  unfolding test_bit
  test_bit-Safe n r v hv = modify-Safe λ q h.
      with_f-IsCpu _ q
        (bit_flags-lt n v (if r == 6 then high q.memptr else v) q.f (ground arith) h.f_lt) h

  -- Of the four categories, one is always met, so the last arm is never reached.
  by_category :
      (cat : ℕ) (a b c d : M bus (Unit {0}))
      → cat < 4
      → Safe laws Any a
      → Safe laws Any b
      → Safe laws Any c
      → Safe laws Any d
      → Safe laws Any (
          if cat == 0
          then a
          else (if cat == 1
              then b
              else (if cat == 2 then c else (if cat == 3 then d else fail panic))))
  by_category zero a b c d hc ha hb hc' hd = ha
  by_category (suc zero) a b c d hc ha hb hc' hd = hb
  by_category (suc (suc zero)) a b c d hc ha hb hc' hd = hc'
  by_category (suc (suc (suc zero))) a b c d hc ha hb hc' hd = hd
  by_category (suc (suc (suc (suc n)))) a b c d hc ha hb hc' hd = absurd (omega arith)

  pub step_cb-Safe : Safe laws Any step_cb
  unfolding step_cb
  step_cb-Safe = bind-Safe fetch_byte-Safe λ op ho. bind-Safe (read_operand-Safe _) λ v hv.
      let n = bit_and (op / 8) 7 in
      let r = bit_and op 7 in
      by_category (op / 64) _ _ _ _ (omega arith) (rotate_or_shift-Safe n r v hv)
        (test_bit-Safe n r v hv) (write_operand-Safe r _ (and-lt v (not8 (2 ^ n)) hv))
        (write_operand-Safe r _
          (or-lt v (2 ^ n) hv (two-pow-lt n (omega (arith, bit_and_mask 3 (op / 8))))))

  copy_block-Safe : (step : ℕ) (repeats : Bool) → Safe laws Any (copy_block step repeats)
  unfolding copy_block
  copy_block-Safe step repeats = bind-Safe get_cpu-Safe λ r hr.
      bind-Safe (read-Safe _)
        λ v hv. then-Safe (write-Safe _ v hv) (modify-Safe (copied-IsCpu step repeats))

  out_block-Safe : (step : ℕ) (repeats : Bool) → Safe laws Any (out_block step repeats)
  unfolding out_block
  out_block-Safe step repeats = bind-Safe get_cpu-Safe λ r hr. bind-Safe (read-Safe _) λ v hv.
      then-Safe (out_port-Safe r.c v hv)
        (modify-Safe λ q h. counted-IsCpu step repeats _ (ground arith))

  in_block-Safe : (step : ℕ) (repeats : Bool) → Safe laws Any (in_block step repeats)
  unfolding in_block
  in_block-Safe step repeats = bind-Safe get_cpu-Safe λ r hr. bind-Safe (in_port-Safe r.c) λ v hv.
      then-Safe (write-Safe _ v hv) (modify-Safe λ q h. counted-IsCpu step repeats _ (ground arith))

  return_interrupt-Safe : Safe laws Any return_interrupt
  unfolding return_interrupt
  return_interrupt-Safe = bind-Safe get_cpu-Safe λ r hr. bind-Safe (read-Safe _) λ lo hl.
      bind-Safe (read-Safe _) λ hi hh. modify-Safe λ q h. ground (arith, word-lt hi lo hh hl)

  store_pair_abs-Safe : (pair : Cpu → ℕ) → Safe laws Any (store_pair_abs pair)
  unfolding store_pair_abs
  store_pair_abs-Safe pair = bind-Safe fetch_word-Safe λ addr ha. bind-Safe get_cpu-Safe λ r hr.
      then-Safe (write-Safe addr (low (pair r)) (omega arith))
        (then-Safe (write-Safe _ (high (pair r)) (omega arith)) (modify-Safe λ q h. ground arith))

  load_pair_abs-Safe :
      (put : ℕ → Cpu → Cpu)
      → ((v : ℕ) (r : Cpu) → v < 65536 → IsCpu r → IsCpu (put v r))
      → Safe laws Any (load_pair_abs put)
  unfolding load_pair_abs
  load_pair_abs-Safe put k = bind-Safe fetch_word-Safe λ addr ha. bind-Safe (read-Safe _) λ lo hl.
      bind-Safe (read-Safe _)
        λ hi hh. modify-Safe λ q h. ground (arith, k (word hi lo) q (word-lt hi lo hh hl) h)

module _ {bus : Bus} where
  interrupt_arms-Safe : (laws : ByteBus bus) → ArmsSafe laws interrupt_arms
  unfolding interrupt_arms
  interrupt_arms-Safe laws =
      pure-Safe tt tt
      ⊳ pure-Safe tt tt
      ⊳ pure-Safe tt tt
      ⊳ pure-Safe tt tt
      ⊳ pure-Safe tt tt
      ⊳ pure-Safe tt tt
      ⊳ modify-Safe load_interrupt-IsCpu
      ⊳ modify-Safe load_interrupt-IsCpu
      ⊳ return_interrupt-Safe
      ⊳ return_interrupt-Safe
      ⊳ return_interrupt-Safe
      ⊳ return_interrupt-Safe
      ⊳ return_interrupt-Safe
      ⊳ return_interrupt-Safe
      ⊳ return_interrupt-Safe
      ⊳ return_interrupt-Safe
      ⊳ modify-Safe neg-IsCpu
      ⊳ modify-Safe neg-IsCpu
      ⊳ modify-Safe neg-IsCpu
      ⊳ modify-Safe neg-IsCpu
      ⊳ modify-Safe neg-IsCpu
      ⊳ modify-Safe neg-IsCpu
      ⊳ modify-Safe neg-IsCpu
      ⊳ modify-Safe neg-IsCpu
      ⊳ no_arms

  pair_arms-Safe : (laws : ByteBus bus) → ArmsSafe laws pair_arms
  unfolding pair_arms
  pair_arms-Safe laws =
      store_pair_abs-Safe bc
      ⊳ store_pair_abs-Safe de
      ⊳ store_pair_abs-Safe hl
      ⊳ store_pair_abs-Safe (λ r. r.sp)
      ⊳ load_pair_abs-Safe set_bc (λ v r hv h. ground arith)
      ⊳ load_pair_abs-Safe set_de (λ v r hv h. ground arith)
      ⊳ load_pair_abs-Safe set_hl (λ v r hv h. ground arith)
      ⊳ load_pair_abs-Safe (λ v r. record r { sp = v }) (λ v r hv h. ground arith)
      ⊳ modify-Safe (sbc_hl-IsCpu bc)
      ⊳ modify-Safe (sbc_hl-IsCpu de)
      ⊳ modify-Safe (sbc_hl-IsCpu hl)
      ⊳ modify-Safe (sbc_hl-IsCpu (λ r. r.sp))
      ⊳ modify-Safe (adc_hl-IsCpu bc)
      ⊳ modify-Safe (adc_hl-IsCpu de)
      ⊳ modify-Safe (adc_hl-IsCpu hl)
      ⊳ modify-Safe (adc_hl-IsCpu (λ r. r.sp))
      ⊳ no_arms

  block_arms-Safe : (laws : ByteBus bus) → ArmsSafe laws block_arms
  unfolding block_arms
  block_arms-Safe laws =
      copy_block-Safe 1 false
      ⊳ copy_block-Safe 1 true
      ⊳ copy_block-Safe 65535 false
      ⊳ copy_block-Safe 65535 true
      ⊳ out_block-Safe 1 false
      ⊳ out_block-Safe 1 true
      ⊳ in_block-Safe 1 false
      ⊳ in_block-Safe 1 true
      ⊳ out_block-Safe 65535 false
      ⊳ out_block-Safe 65535 true
      ⊳ in_block-Safe 65535 false
      ⊳ in_block-Safe 65535 true
      ⊳ no_arms

  pub step_ed-Safe : (laws : ByteBus bus) (pc_op : ℕ) → Safe laws Any (step_ed pc_op)
  unfolding step_ed
  step_ed-Safe laws pc_op = bind-Safe fetch_byte-Safe λ ed he.
      arm_of-Safe ed (interrupt_arms-Safe laws)
        (arm_of-Safe ed (pair_arms-Safe laws) (arm_of-Safe ed (block_arms-Safe laws) (fail-Safe _)))
