-- ===== src/Oracle6502/Step.antt =====
-- crates/oracle_6502/src/lib.rs: `step` and `run_until_rts`.
use nes_to_sms.Base.{
  ℕ, zero, suc, ◌+◌, ◌==◌, u16, ltb, Bool, true, false, ◌||◌, [], ◌∷◌, if◌then◌else◌, Result, ok,
  err,
}
use nes_to_sms.Cpu6502.Isa.{Mnemonic, jam, rts, Instruction, is_call}
use nes_to_sms.Cpu6502.Table.{opcode_info}
use nes_to_sms.Cpu6502.Decode.{DecodeError, decode_at}
use nes_to_sms.Oracle6502.Machine.{
  Bus, M, panic, unstable_opcode, jam_opcode, decode_error, step_limit_exceeded, step_error, pure,
  fail, ◌>>=◌, ◌>>◌, get_cpu, modify, read,
}
use nes_to_sms.Oracle6502.Address.{resolve_ea}
use nes_to_sms.Oracle6502.Execute.{execute}

pub record StepInfo : Type 0 where
  pub pc_before : ℕ
  pub opcode : ℕ
  pub bytes : ℕ

unfoldable pub is_jam : Mnemonic → Bool
is_jam jam = true
is_jam _ = false

unfoldable pub is_rts : Mnemonic → Bool
is_rts rts = true
is_rts _ = false

-- The opcodes that `step` refuses by number: ANC, ALR, ARR, ANE, AHX, TAS, SHY, SHX, LAS, AXS.
unfoldable pub is_unstable : ℕ → Bool
is_unstable op =
    op == 0x0b
    || op == 0x2b
    || op == 0x4b
    || op == 0x6b
    || op == 0x8b
    || op == 0x93
    || op == 0x9f
    || op == 0x9b
    || op == 0x9c
    || op == 0x9e
    || op == 0xbb
    || op == 0xcb

-- What becomes of the nesting depth, an `i32` that starts at 0.
pub data Depth : Type 0 where
  nested : ℕ → Depth
  returned overflow : Depth

-- The nesting depth after a step that calls or returns. A return at depth 0 ends the loop, so that
-- the depth never is negative; `depth += 1` overflows at the largest `i32`.
unfoldable pub next_depth : ℕ → Bool → Bool → Depth
next_depth depth true returns = if ltb depth 0x7fff_ffff then nested (suc depth) else overflow
next_depth depth false false = nested depth
next_depth zero false true = returned
next_depth (suc depth) false true = nested depth

module _ {bus : Bus} where
  abbrev pub decoded_or_fail : Result DecodeError Instruction → M bus Instruction
  decoded_or_fail (ok i) = pure i
  decoded_or_fail (err e) = fail (step_error (decode_error e))

  -- JAM is refused first, then the opcodes by number.
  unfoldable pub refuse : Instruction → ℕ → ℕ → M bus Instruction
  refuse insn pc opcode =
      if is_jam insn.mnemonic
      then fail (step_error (jam_opcode pc opcode))
      else (if is_unstable opcode then fail (step_error (unstable_opcode pc opcode)) else pure insn)

  -- The fetch of three bytes, the decoder on them and the two refusals.
  unfoldable pub fetch : M bus Instruction
  fetch = do
    c ← get_cpu
    b0 ← read c.pc
    b1 ← read (u16 (c.pc + 1))
    b2 ← read (u16 (c.pc + 2))
    insn ← decoded_or_fail (decode_at (b0 ∷ b1 ∷ b2 ∷ []) c.pc 0)
    refuse insn c.pc b0

  -- The rest of `step`: the program counter, the effective address, the operation.
  unfoldable pub perform : Instruction → M bus (Unit {0})
  perform insn = do
    modify (λ c. record c { pc = u16 (c.pc + insn.size) })
    ea ← resolve_ea insn.mode insn.operand
    execute insn.mnemonic insn.mode insn.operand ea

  unfoldable pub step : M bus StepInfo
  step = do
    insn ← fetch
    perform insn
    pure (record { pc_before = insn.pc; opcode = insn.opcode; bytes = insn.size })

  -- One round of `run_until_rts`: the look at the next opcode and the step. The result says
  -- whether the opcode calls and whether it returns.
  unfoldable pub observed_step : M bus (Bool × Bool)
  observed_step = do
    c ← get_cpu
    opcode ← read c.pc
    info ← step
    pure (is_call (opcode_info opcode).mnemonic, is_rts (opcode_info opcode).mnemonic)

  -- `left` is `max_steps - steps`. An overflow of the depth panics, as it does where overflows are
  -- checked.
  unfoldable pub run_from : ℕ → ℕ → ℕ → M bus ℕ
  run_from zero depth steps = fail (step_error step_limit_exceeded)
  run_from (suc left) depth steps = observed_step >>= λ seen.
      elim (next_depth depth seen.0 seen.1) [
        | returned ↦ pure (suc steps)
        | overflow ↦ fail panic
        | nested depth' ↦ run_from left depth' (suc steps)
      ]

  unfoldable pub run_until_rts : ℕ → M bus ℕ
  run_until_rts max_steps = run_from max_steps 0 0

-- The parts of a step, to be unfolded together in a run.
unfoldable pub stepping : Unit {0}
unfolding is_jam is_rts is_call is_unstable refuse fetch perform step observed_step next_depth
    run_from run_until_rts
stepping = tt
