-- ===== src/Z80Emu/HighSafety.antt =====
-- crates/z80_emu/src/lib.rs: the arms from 0x40 keep the machine well formed.
use nes_to_sms.Base.{ℕ, ◌+◌, ◌*◌, ◌<◌, ◌==◌, arith, Bool, true, not, u16, bit_or-lt}
use nes_to_sms.Z80Emu.Cpu.{Cpu, flag, flag_c, flag_pv, flag_s, flag_z, af, bc, de, hl}
use nes_to_sms.Z80Emu.Machine.{Bus, halt}
use nes_to_sms.Z80Emu.Bounds.{IsCpu, word-lt}
use nes_to_sms.Z80Emu.Registers.{hl-lt, ei-IsCpu, di-IsCpu, ex_de_hl-IsCpu, exx-IsCpu, alu-IsCpu}
use nes_to_sms.Z80Emu.High.{
  load_block, alu_block, alu_immediate, return_to, return_if, jump_if, call_if, call, pop_pair,
  push_pair, input, output, ex_sp_hl, transfer_arms, other_arms,
}
use nes_to_sms.Z80Emu.Hoare.{
  ByteBus, Safe, ArmsSafe, no_arms, ◌⊳◌, Any, pure-Safe, fail-Safe, bind-Safe, then-Safe,
  get_cpu-Safe, modify-Safe, read-Safe, write-Safe, in_port-Safe, out_port-Safe, if-Safe,
  fetch_byte-Safe, fetch_word-Safe, push_word-Safe, pop_word-Safe, read_operand-Safe,
  write_operand-Safe,
}

module _ {bus : Bus} {laws : ByteBus bus} where
  pub load_block-Safe : (op : ℕ) → Safe laws Any (load_block op)
  unfolding load_block
  load_block-Safe op =
      if-Safe (op == 0x76) (then-Safe (modify-Safe λ r h. ground arith) (fail-Safe halt))
        (bind-Safe (read_operand-Safe _) λ v hv. write_operand-Safe _ v hv)

  pub alu_block-Safe : (op : ℕ) → Safe laws Any (alu_block op)
  unfolding alu_block
  alu_block-Safe op =
      bind-Safe (read_operand-Safe _) λ v hv. modify-Safe λ r h. alu-IsCpu _ v r hv h

  alu_immediate-Safe : (n : ℕ) → Safe laws Any (alu_immediate n)
  unfolding alu_immediate
  alu_immediate-Safe n = bind-Safe fetch_byte-Safe λ v hv. modify-Safe λ r h. alu-IsCpu n v r hv h

  return_to-Safe : Safe laws Any return_to
  unfolding return_to
  return_to-Safe = bind-Safe pop_word-Safe λ v hv. modify-Safe λ r h. ground arith

  return_if-Safe : (test : Cpu → Bool) → Safe laws Any (return_if test)
  unfolding return_if
  return_if-Safe test =
      bind-Safe get_cpu-Safe λ r hr. if-Safe (test r) return_to-Safe (pure-Safe tt tt)

  jump_if-Safe : (test : Cpu → Bool) → Safe laws Any (jump_if test)
  unfolding jump_if
  jump_if-Safe test =
      bind-Safe fetch_word-Safe
        λ nn hn. then-Safe (modify-Safe λ r h. ground arith) (modify-Safe λ r h. ground arith)

  call_if-Safe : (test : Cpu → Bool) → Safe laws Any (call_if test)
  unfolding call_if
  call_if-Safe test = bind-Safe fetch_word-Safe λ nn hn.
      then-Safe (modify-Safe λ r h. ground arith) (
        bind-Safe get_cpu-Safe λ r hr.
          if-Safe (test r) (then-Safe (push_word-Safe r.pc) (modify-Safe λ r h. ground arith))
            (pure-Safe tt tt))

  call-Safe : Safe laws Any call
  unfolding call
  call-Safe = bind-Safe fetch_word-Safe λ nn hn.
      bind-Safe get_cpu-Safe
        λ r hr. then-Safe (push_word-Safe r.pc) (modify-Safe λ r h. ground arith)

  pop_pair-Safe :
      (put : ℕ → Cpu → Cpu)
      → ((v : ℕ) (r : Cpu) → v < 65536 → IsCpu r → IsCpu (put v r))
      → Safe laws Any (pop_pair put)
  unfolding pop_pair
  pop_pair-Safe put k = bind-Safe pop_word-Safe λ v hv. modify-Safe λ r h. k v r hv h

  push_pair-Safe : (pair : Cpu → ℕ) → Safe laws Any (push_pair pair)
  unfolding push_pair
  push_pair-Safe pair = bind-Safe get_cpu-Safe λ r hr. push_word-Safe (pair r)

  input-Safe : Safe laws Any input
  unfolding input
  input-Safe = bind-Safe fetch_byte-Safe λ n hn.
      bind-Safe get_cpu-Safe
        λ r hr. bind-Safe (in_port-Safe n) λ v hv. modify-Safe λ q h. ground arith

  output-Safe : Safe laws Any output
  unfolding output
  output-Safe = bind-Safe fetch_byte-Safe λ n hn. bind-Safe get_cpu-Safe λ r hr.
      then-Safe (out_port-Safe n r.a hr.a_lt) (
        modify-Safe λ q h.
          ground
            (arith, bit_or-lt 16 (u16 (n + 1)) (q.a * 256) (omega arith) (omega (arith, h.a_lt))))

  ex_sp_hl-Safe : Safe laws Any ex_sp_hl
  unfolding ex_sp_hl
  ex_sp_hl-Safe = bind-Safe get_cpu-Safe λ r hr. bind-Safe (read-Safe r.sp) λ lo hl.
      bind-Safe (read-Safe _) λ hi hh. then-Safe (write-Safe r.sp r.l hr.l_lt) (
        then-Safe (write-Safe _ r.h hr.h_lt)
          (modify-Safe λ q h. ground (arith, word-lt hi lo hh hl)))

module _ {bus : Bus} where
  pub transfer_arms-Safe : (laws : ByteBus bus) → ArmsSafe laws transfer_arms
  unfolding transfer_arms
  transfer_arms-Safe laws =
      return_if-Safe (λ r. not (flag flag_z r))
      ⊳ return_if-Safe (flag flag_z)
      ⊳ return_if-Safe (λ r. not (flag flag_c r))
      ⊳ return_if-Safe (flag flag_c)
      ⊳ return_if-Safe (λ r. not (flag flag_pv r))
      ⊳ return_if-Safe (flag flag_pv)
      ⊳ return_if-Safe (λ r. not (flag flag_s r))
      ⊳ return_if-Safe (flag flag_s)
      ⊳ jump_if-Safe (λ r. not (flag flag_z r))
      ⊳ jump_if-Safe (flag flag_z)
      ⊳ jump_if-Safe (λ r. not (flag flag_c r))
      ⊳ jump_if-Safe (flag flag_c)
      ⊳ jump_if-Safe (λ r. not (flag flag_pv r))
      ⊳ jump_if-Safe (flag flag_pv)
      ⊳ jump_if-Safe (λ r. not (flag flag_s r))
      ⊳ jump_if-Safe (flag flag_s)
      ⊳ jump_if-Safe (λ r. true)
      ⊳ call_if-Safe (λ r. not (flag flag_z r))
      ⊳ call_if-Safe (flag flag_z)
      ⊳ return_to-Safe
      ⊳ call-Safe
      ⊳ modify-Safe (λ r h. ground (arith, hl-lt r h))
      ⊳ no_arms

  pub other_arms-Safe : (laws : ByteBus bus) → ArmsSafe laws other_arms
  unfolding other_arms
  other_arms-Safe laws =
      pop_pair-Safe _ (λ v r hv h. ground arith)
      ⊳ pop_pair-Safe _ (λ v r hv h. ground arith)
      ⊳ pop_pair-Safe _ (λ v r hv h. ground arith)
      ⊳ pop_pair-Safe _ (λ v r hv h. ground arith)
      ⊳ push_pair-Safe bc
      ⊳ push_pair-Safe de
      ⊳ push_pair-Safe hl
      ⊳ push_pair-Safe af
      ⊳ alu_immediate-Safe 0
      ⊳ alu_immediate-Safe 1
      ⊳ alu_immediate-Safe 2
      ⊳ alu_immediate-Safe 3
      ⊳ alu_immediate-Safe 4
      ⊳ alu_immediate-Safe 5
      ⊳ alu_immediate-Safe 6
      ⊳ alu_immediate-Safe 7
      ⊳ input-Safe
      ⊳ output-Safe
      ⊳ modify-Safe di-IsCpu
      ⊳ modify-Safe ei-IsCpu
      ⊳ modify-Safe ex_de_hl-IsCpu
      ⊳ modify-Safe exx-IsCpu
      ⊳ ex_sp_hl-Safe
      ⊳ no_arms
