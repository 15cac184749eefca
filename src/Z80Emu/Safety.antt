-- ===== src/Z80Emu/Safety.antt =====
-- crates/z80_emu/src/lib.rs: `step` and `run_until_ret` on a well-formed machine.
use nes_to_sms.Base.{
  ℕ, zero, suc, ◌+◌, ◌<◌, ◌≤◌, ◌==◌, arith, ◌≡◌, true, if-both, ◌&&◌, ◌||◌, ltb, none,
}
use nes_to_sms.Z80Emu.Cpu.{Cpu, within}
use nes_to_sms.Z80Emu.Machine.{Bus, Machine, step_limit_exceeded, halt, unsupported_opcode}
use nes_to_sms.Z80Emu.Bounds.{IsCpu}
use nes_to_sms.Z80Emu.Hoare.{
  ByteBus, IsMachine, Safe, Ends, Any, mono-Safe, pure-Safe, fail-Safe, bind-Safe, then-Safe,
  get_cpu-Safe, modify-Safe, read-Safe, if-Safe, arm_of-Safe, fetch_byte-Safe,
}
use nes_to_sms.Z80Emu.LowSafety.{load_arms-Safe, step_arms-Safe, flow_arms-Safe}
use nes_to_sms.Z80Emu.HighSafety.{
  load_block-Safe, alu_block-Safe, transfer_arms-Safe, other_arms-Safe,
}
use nes_to_sms.Z80Emu.ExtendedSafety.{step_cb-Safe, step_ed-Safe}
use nes_to_sms.Z80Emu.Step.{
  dispatch, execute, settle, step, is_call, is_ret, nest, run_from, run_until_ret,
}

module _ {bus : Bus} (laws : ByteBus bus) where
  dispatch-Safe : (pc_op op : ℕ) → Safe laws Any (dispatch pc_op op)
  unfolding dispatch
  dispatch-Safe pc_op op =
      let e = unsupported_opcode pc_op op none in
      if-Safe (ltb op 0x40)
        (arm_of-Safe op (load_arms-Safe laws) (
          arm_of-Safe op (step_arms-Safe laws)
            (arm_of-Safe op (flow_arms-Safe laws) (fail-Safe e))))
        (if-Safe (within op 0x40 0x7f) (load_block-Safe op) (
          if-Safe (within op 0x80 0xbf) (alu_block-Safe op) (
            if-Safe (op == 0xcb) step_cb-Safe (
              if-Safe (op == 0xed) (step_ed-Safe laws pc_op) (
                if-Safe (op == 0xdd || op == 0xfd) (bind-Safe fetch_byte-Safe λ b hb. fail-Safe _) (
                  arm_of-Safe op (transfer_arms-Safe laws)
                    (arm_of-Safe op (other_arms-Safe laws) (fail-Safe e))))))))

  settle-IsCpu : (r : Cpu) → IsCpu r → IsCpu (settle r)
  unfolding settle
  settle-IsCpu r h = ground arith

  execute-Safe : Safe laws Any execute
  unfolding execute
  execute-Safe = bind-Safe get_cpu-Safe λ r hr. bind-Safe fetch_byte-Safe λ op ho.
      then-Safe (modify-Safe λ q h. ground arith)
        (then-Safe (dispatch-Safe r.pc op) (modify-Safe settle-IsCpu))

  step-Safe : Safe laws Any step
  unfolding step
  step-Safe = bind-Safe get_cpu-Safe λ r hr. if-Safe r.halted (fail-Safe halt) execute-Safe

  nest-Safe : (op depth : ℕ) → depth < 0x7fff_ffff → Safe laws (λ d. d ≤ depth + 1) (nest op depth)
  unfolding nest
  nest-Safe op depth h =
      let below : ltb depth 0x7fff_ffff ≡ true = ground arith in
      if-Safe (is_call op) (rw below (pure-Safe _ (omega arith)))
        (pure-Safe _ (if-both (λ d. d ≤ depth + 1) (is_ret op) (omega arith) (omega arith)))

  -- The depth is at most the number of steps.
  run_from-Safe :
      (fuel steps depth : ℕ)
      → depth ≤ steps
      → steps + fuel < 0x8000_0000
      → Safe laws (λ k. (steps < k) × (k ≤ steps + fuel)) (run_from fuel steps depth)
  unfolding run_from
  run_from-Safe zero steps depth hd hb = fail-Safe step_limit_exceeded
  run_from-Safe (suc fuel) steps depth hd hb = bind-Safe get_cpu-Safe λ r hr.
      bind-Safe (read-Safe r.pc) λ op ho. then-Safe step-Safe (
        if-Safe (is_ret op && depth == 0) (pure-Safe _ (omega arith)) (
          bind-Safe (nest-Safe op depth (omega arith)) λ d w.
            mono-Safe (λ k q. omega arith)
              (run_from-Safe fuel (steps + 1) d (omega arith) (omega arith))))

-- On a bus that gives bytes, from any machine with bytes in the byte registers and words in the word
-- registers, `step` does not panic for any opcode, and leaves such a machine both where it ends and
-- where it answers an error.
pub step-Ends :
    {bus : Bus} (laws : ByteBus bus) (s : Machine bus)
    → IsMachine laws s
    → Ends laws Any (step s).0 (step s).1
step-Ends laws s h = (step-Safe laws).run s h

-- On a bus that gives bytes, from a well-formed machine and for every budget below 2^31,
-- `run_until_ret` does not panic, so that its `i32` depth does not overflow: it returns a positive
-- number of steps within the budget or it answers an error, and leaves a well-formed machine both ways.
pub run_until_ret-Ends :
    {bus : Bus} (laws : ByteBus bus) (max_steps : ℕ) (s : Machine bus)
    → max_steps < 0x8000_0000
    → IsMachine laws s
    → Ends laws
        (λ k. (0 < k) × (k ≤ max_steps))
        (run_until_ret max_steps s).0
        (run_until_ret max_steps s).1
unfolding run_until_ret
run_until_ret-Ends laws max_steps s b h =
    (mono-Safe {R = λ k. (0 < k) × (k ≤ max_steps)} (λ k q. omega arith)
        (run_from-Safe laws max_steps 0 0 (omega arith) (omega arith))).run
      s h
