-- ===== src/Oracle6502/Total.antt =====
-- crates/oracle_6502/src/lib.rs: `step` never panics, whatever the memory holds.
use nes_to_sms.Base.{
  ℕ, ◌+◌, ◌<◌, ◌≡◌, ◌∙◌, ap, refl, arith, Bool, true, false, not, ◌||◌, ◌⊎◌, inl, inr, Bool-cases,
  [], ◌∷◌, u16, Result, ok, err, all_below, all_below_sound, if◌then◌else◌,
}
use nes_to_sms.Cpu6502.Isa.{AddrMode, implied, accumulator, immediate, relative, Instruction}
use nes_to_sms.Cpu6502.Table.{opcode_info}
use nes_to_sms.Cpu6502.Decode.{DecodeError, operand_of, decoded}
use nes_to_sms.Cpu6502.Encoding.{operand_bytes-le, IsDecoded-decode_at}
use nes_to_sms.Oracle6502.Machine.{
  Bus, Stop, StepError, step_error, jam_opcode, unstable_opcode, Machine, pure, ◌>>=◌, after, monad,
}
use nes_to_sms.Oracle6502.Registers.{with_pc-IsCpu}
use nes_to_sms.Oracle6502.Hoare.{
  ByteBus, IsMachine, Ends, Keeps, Any, pure-Keeps, bind-Keeps, then-Keeps, modify-Keeps,
}
use nes_to_sms.Oracle6502.Execution.{OperandFits, resolve_ea-Keeps}
use nes_to_sms.Oracle6502.Running.{runs, execute-Keeps}
use nes_to_sms.Oracle6502.Step.{
  StepInfo, is_jam, is_unstable, decoded_or_fail, refuse, fetch, perform, step,
}

-- The opcodes that `step` executes.
unfoldable pub is_accepted : ℕ → Bool
is_accepted op = not (is_jam (opcode_info op).mnemonic || is_unstable op)

-- What `step` answers to any other opcode.
unfoldable pub refusal : ℕ → ℕ → StepError
refusal pc op = if is_jam (opcode_info op).mnemonic then jam_opcode pc op else unstable_opcode pc op

accepted_runs_table :
    all_below 256
      (λ op. not (is_accepted op) || runs (opcode_info op).mnemonic (opcode_info op).mode)
    ≡ true
unfolding all_below is_accepted is_jam is_unstable opcode_info
accepted_runs_table = refl

accepted_runs :
    (op : ℕ)
    → op < 256
    → is_accepted op ≡ true
    → runs (opcode_info op).mnemonic (opcode_info op).mode ≡ true
accepted_runs op h a =
    let here =
      all_below_sound 256
        (λ o. not (is_accepted o) || runs (opcode_info o).mnemonic (opcode_info o).mode) op
        accepted_runs_table h in
    ground (arith, here)

operand_of-OperandFits :
    (mode : AddrMode) (lo hi : ℕ) → lo < 256 → hi < 256 → OperandFits mode (operand_of mode lo hi)
unfolding operand_of
operand_of-OperandFits implied lo hi p q = refl
operand_of-OperandFits accumulator lo hi p q = refl
operand_of-OperandFits immediate lo hi p q = (p, refl)
operand_of-OperandFits relative lo hi p q = (p, refl)
operand_of-OperandFits _ lo hi p q = omega arith

module _ {bus : Bus} (laws : ByteBus bus) where
  perform-Keeps :
      (pc op lo hi : ℕ)
      → op < 256
      → lo < 256
      → hi < 256
      → is_accepted op ≡ true
      → Keeps laws Any (perform {bus = bus} (decoded (op ∷ lo ∷ hi ∷ []) pc 0 op))
  unfolding perform decoded
  perform-Keeps pc op lo hi ho hl hh acc =
      let mode = (opcode_info op).mode in
      let fits = operand_of-OperandFits mode lo hi hl hh in
      then-Keeps (modify-Keeps λ c hc. with_pc-IsCpu _ c (omega arith) hc) (
        bind-Keeps (resolve_ea-Keeps mode _ fits)
          λ ea he. execute-Keeps _ mode _ ea (accepted_runs op ho acc) fits he)

module _ {bus : Bus} (s : Machine bus) where
  -- The three bytes that `fetch` reads, each with the memory after the read.
  abbrev pub fetched0 : ℕ × bus.Mem
  fetched0 = bus.read_byte s.cpu.pc s.mem

  abbrev pub fetched1 : ℕ × bus.Mem
  fetched1 = bus.read_byte (u16 (s.cpu.pc + 1)) fetched0.1

  abbrev pub fetched2 : ℕ × bus.Mem
  fetched2 = bus.read_byte (u16 (s.cpu.pc + 2)) fetched1.1

  abbrev pub fetched_machine : Machine bus
  fetched_machine = record s { mem = fetched2.1 }

  abbrev fetched_instruction : Instruction
  fetched_instruction = decoded (fetched0.0 ∷ fetched1.0 ∷ fetched2.0 ∷ []) s.cpu.pc 0 fetched0.0

  -- Three bytes hold any instruction, so the decoder does not fail.
  fetch_lem : fetch s ≡ refuse fetched_instruction s.cpu.pc fetched0.0 fetched_machine
  unfolding fetch monad
  fetch_lem =
      let raw = fetched0.0 ∷ fetched1.0 ∷ fetched2.0 ∷ [] in
      let nb = operand_bytes-le (opcode_info fetched0.0).mode in
      ap
        (λ (r : Result DecodeError Instruction).
          (decoded_or_fail r >>= λ insn. refuse insn s.cpu.pc fetched0.0) fetched_machine)
        (IsDecoded-decode_at raw s.cpu.pc 0 fetched0.0 refl (omega arith))

  refuse_accepted :
      is_accepted fetched0.0 ≡ true
      → refuse fetched_instruction s.cpu.pc fetched0.0 fetched_machine
        ≡ (ok fetched_instruction, fetched_machine)
  unfolding refuse monad decoded is_accepted
  refuse_accepted h = ground arith

  refuse_refused :
      is_accepted fetched0.0 ≡ false
      → refuse fetched_instruction s.cpu.pc fetched0.0 fetched_machine
        ≡ (err (step_error (refusal s.cpu.pc fetched0.0)), fetched_machine)
  unfolding refuse monad decoded refusal is_accepted
  refuse_refused h = ground arith

  abbrev info_of : Instruction → StepInfo
  info_of i = record { pc_before = i.pc; opcode = i.opcode; bytes = i.size }

  step_accepted :
      is_accepted fetched0.0 ≡ true
      → step s
        ≡ (perform fetched_instruction >>= λ _. pure (info_of fetched_instruction)) fetched_machine
  unfolding step ◌>>=◌ after
  step_accepted h =
      ap
        (λ (r : Result Stop Instruction × Machine bus).
          after r.0 r.1 (λ insn. perform insn >>= λ _. pure (info_of insn)))
        (fetch_lem ∙ refuse_accepted h)

  step_refused :
      is_accepted fetched0.0 ≡ false
      → step s ≡ (err (step_error (refusal s.cpu.pc fetched0.0)), fetched_machine)
  unfolding step ◌>>=◌ after
  step_refused h =
      ap
        (λ (r : Result Stop Instruction × Machine bus).
          after r.0 r.1 (λ insn. perform insn >>= λ _. pure (info_of insn)))
        (fetch_lem ∙ refuse_refused h)

module _ {bus : Bus} (laws : ByteBus bus) where
  fetched_machine-IsMachine :
      (s : Machine bus) → IsMachine laws s → IsMachine laws (fetched_machine s)
  fetched_machine-IsMachine s h = record {
    cpu_ok = h.cpu_ok;
    mem_ok = laws.read_kept _ _ (laws.read_kept _ _ (laws.read_kept _ _ h.mem_ok));
  }

  execution-Ends :
      (s : Machine bus)
      → IsMachine laws s
      → is_accepted (fetched0 s).0 ≡ true
      → Ends laws
          (λ i. (i.pc_before ≡ s.cpu.pc) × (i.opcode ≡ (fetched0 s).0))
          (step s).0
          (step s).1
  unfolding decoded
  execution-Ends s h acc =
      let m0 = laws.read_kept s.cpu.pc s.mem h.mem_ok in
      let m1 = laws.read_kept (u16 (s.cpu.pc + 1)) (fetched0 s).1 m0 in
      let performed =
        perform-Keeps laws s.cpu.pc (fetched0 s).0 (fetched1 s).0 (fetched2 s).0
          (laws.read_lt _ _ h.mem_ok) (laws.read_lt _ _ m0) (laws.read_lt _ _ m1) acc in
      let whole =
        bind-Keeps performed (λ u q. pure-Keeps (info_of s (fetched_instruction s)) (refl, refl)) in
      rw (step_accepted s acc) (whole.run (fetched_machine s) (fetched_machine-IsMachine s h))

  -- On a bus that reads bytes and from a well-formed machine, `step` executes an accepted opcode
  -- without an error or a panic, reports the program counter and the opcode and leaves the machine
  -- well formed; any other opcode it refuses by the error that names it, with every register as it
  -- was.
  pub step-total :
      (s : Machine bus)
      → IsMachine laws s
      → ((is_accepted (fetched0 s).0 ≡ true)
          × Ends laws
              (λ i. (i.pc_before ≡ s.cpu.pc) × (i.opcode ≡ (fetched0 s).0))
              (step s).0
              (step s).1)
        ⊎ ((is_accepted (fetched0 s).0 ≡ false)
            × ((step s).0 ≡ err (step_error (refusal s.cpu.pc (fetched0 s).0)))
            × ((step s).1.cpu ≡ s.cpu))
  step-total s h = elim (Bool-cases (is_accepted (fetched0 s).0)) [
    | inl acc ↦ inl (acc, execution-Ends s h acc)
    | inr refused ↦ inr (
      refused,
      ap (λ r. r.0) (step_refused s refused),
      ap (λ r. r.1.cpu) (step_refused s refused),
    )
  ]
