-- ===== src/Z80Emu/Step.antt =====
-- crates/z80_emu/src/lib.rs: one instruction, and the run until a subroutine returns.
use nes_to_sms.Base.{ℕ, zero, suc, ◌+◌, ◌-◌, ◌==◌, ltb, Bool, ◌&&◌, ◌||◌, none, if◌then◌else◌}
use nes_to_sms.Z80Emu.Cpu.{Cpu, approx_cycles, within}
use nes_to_sms.Z80Emu.Machine.{
  Bus, M, panic, step_error, unsupported_opcode, halt, step_limit_exceeded, pure, fail, ◌>>=◌, ◌>>◌,
  get_cpu, modify, read, fetch_byte, arm_of,
}
use nes_to_sms.Z80Emu.Shifts.{step_cb}
use nes_to_sms.Z80Emu.Low.{flow_arms, load_arms, step_arms}
use nes_to_sms.Z80Emu.High.{alu_block, load_block, other_arms, transfer_arms}
use nes_to_sms.Z80Emu.Extended.{step_ed}

abbrev pub is_call : ℕ → Bool
is_call op = op == 0xcd || (op == 0xc4 || op == 0xcc)

abbrev pub is_ret : ℕ → Bool
is_ret op =
    op == 0xc9
    || (op == 0xc0
        || (op == 0xc8
            || (op == 0xd0
                || (op == 0xd8 || (op == 0xe0 || (op == 0xe8 || (op == 0xf0 || op == 0xf8)))))))

-- The countdown after EI.
unfoldable pub settle : Cpu → Cpu
settle r = if ltb 0 r.ei_pending then record r { ei_pending = r.ei_pending - 1 } else r

module _ {bus : Bus} where
  -- The match on the opcode that was fetched at `pc_op`.
  unfoldable pub dispatch : ℕ → ℕ → M bus (Unit {0})
  dispatch pc_op op =
      if ltb op 0x40
      then arm_of op load_arms (
          arm_of op step_arms
            (arm_of op flow_arms (fail (step_error (unsupported_opcode pc_op op none)))))
      else (if within op 0x40 0x7f
          then load_block op
          else (if within op 0x80 0xbf
              then alu_block op
              else (if op == 0xcb
                  then step_cb
                  else (if op == 0xed
                      then step_ed pc_op
                      else (if op == 0xdd || op == 0xfd
                          then (fetch_byte >>= λ b.
                              fail (step_error (unsupported_opcode pc_op op none)))
                          else arm_of op transfer_arms (
                              arm_of op other_arms
                                (fail (step_error (unsupported_opcode pc_op op none)))))))))

  unfoldable pub execute : M bus (Unit {0})
  execute = do
    r ← get_cpu
    op ← fetch_byte
    modify (λ r. record r { cycles = r.cycles + approx_cycles op })
    dispatch r.pc op
    modify settle

  unfoldable pub step : M bus (Unit {0})
  step = do r ← get_cpu; if r.halted then fail (step_error halt) else execute

  -- The depth, an `i32`, after an instruction that did not end the run. `depth += 1` overflows at the
  -- largest `i32` and panics, as it does where overflows are checked; a return at depth 0 ends the run,
  -- so that the depth never is negative.
  unfoldable pub nest : (op depth : ℕ) → M bus ℕ
  nest op depth =
      if is_call op
      then (if ltb depth 0x7fff_ffff then pure (depth + 1) else fail panic)
      else pure (if is_ret op then depth - 1 else depth)

  -- `run_until_ret_with_trace` after `steps` instructions, without the trace; the fuel is
  -- `max_steps - steps`, and an answer is the number of the steps taken.
  unfoldable pub run_from : (fuel steps depth : ℕ) → M bus ℕ
  run_from zero steps depth = fail (step_error step_limit_exceeded)
  run_from (suc fuel) steps depth = do
    r ← get_cpu
    op ← read r.pc
    step
    (if is_ret op && depth == 0
        then pure (steps + 1)
        else nest op depth >>= run_from fuel (steps + 1))

  unfoldable pub run_until_ret : ℕ → M bus ℕ
  unfolding run_from
  run_until_ret max_steps = run_from max_steps 0 0
