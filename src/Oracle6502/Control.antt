-- ===== src/Oracle6502/Control.antt =====
-- crates/cpu6502 against crates/oracle_6502: the static branch target is where the interpreter
-- goes, and the timing classes cover what it executes.
use nes_to_sms.Base.{
  ℕ, ◌+◌, ◌<◌, ◌==◌, ◌≡◌, ◌∙◌, ap, refl, arith, Bool, true, false, not, ◌&&◌, ◌⊎◌, inl, inr,
  Bool-cases, List, [], u16, Option, none, some, all_below, all_below_sound, if◌then◌else◌,
}
use nes_to_sms.Cpu6502.Isa.{
  AddrMode, absolute, relative, Operand, addr, rel, Mnemonic, Instruction, is_branch, sign_extend,
}
use nes_to_sms.Cpu6502.Table.{opcode_info}
use nes_to_sms.Cpu6502.Decode.{
  decoded, absolute_target, relative_target, is_direct_jump, branch_target,
}
use nes_to_sms.Cpu6502.Timing.{InstructionTiming, timing}
use nes_to_sms.Oracle6502.Cpu.{branch}
use nes_to_sms.Oracle6502.Machine.{Bus, Machine, monad, push16}
use nes_to_sms.Oracle6502.Address.{resolve_ea}
use nes_to_sms.Oracle6502.Execute.{execute}
use nes_to_sms.Oracle6502.Step.{perform, is_jam, is_unstable}
use nes_to_sms.Oracle6502.Total.{is_accepted}

absolute_target-some :
    (mode : AddrMode) (o : Operand) {t : ℕ}
    → absolute_target mode o ≡ some t
    → (mode ≡ absolute) × (o ≡ addr t)
unfolding absolute_target
absolute_target-some absolute (addr a) h = ground arith
absolute_target-some _ _ h = cc

relative_target-some :
    (next : ℕ) (mode : AddrMode) (o : Operand) {t : ℕ}
    → relative_target next mode o ≡ some t
    → (b : ℕ) × (mode ≡ relative) × (o ≡ rel b) × (t ≡ u16 (next + sign_extend b))
unfolding relative_target
relative_target-some next relative (rel b) h = (b, refl, refl, ground arith)
relative_target-some next _ _ h = cc

module _ {bus : Bus} (s : Machine bus) (size opcode cycles : ℕ) (official : Bool) where
  abbrev insn : Mnemonic → AddrMode → Operand → Instruction
  insn mn mode o = record {
    pc = s.cpu.pc;
    opcode = opcode;
    mnemonic = mn;
    mode = mode;
    operand = o;
    size = size;
    cycles = cycles;
    official = official;
  }

  abbrev Goes : Instruction → ℕ → Type 0
  Goes i t =
      ((perform i s).1.cpu.pc ≡ t)
      ⊎ ((is_branch i.mnemonic ≡ true) × ((perform i s).1.cpu.pc ≡ u16 (i.pc + i.size)))

  direct-Goes :
      (mn : Mnemonic) (t : ℕ) → is_direct_jump mn ≡ true → Goes (insn mn absolute (addr t)) t
  unfolding perform resolve_ea execute monad is_direct_jump push16
  direct-Goes Mnemonic.jmp t h = inl refl
  direct-Goes Mnemonic.jsr t h = inl refl
  direct-Goes _ t h = cc

  branch-Goes :
      (mn : Mnemonic) (b : ℕ)
      → is_branch mn ≡ true
      → Goes (insn mn relative (rel b)) (u16 (u16 (s.cpu.pc + size) + sign_extend b))
  unfolding perform resolve_ea execute monad is_branch branch
  branch-Goes Mnemonic.bcc b h = ground arith
  branch-Goes _ b h = ground arith

branch_goes :
    {bus : Bus} (s : Machine bus) (i : Instruction) (t b : ℕ)
    → s.cpu.pc ≡ i.pc
    → i.mode ≡ relative
    → i.operand ≡ rel b
    → t ≡ u16 (u16 (i.pc + i.size) + sign_extend b)
    → is_branch i.mnemonic ≡ true
    → ((perform i s).1.cpu.pc ≡ t)
      ⊎ ((is_branch i.mnemonic ≡ true) × ((perform i s).1.cpu.pc ≡ u16 (i.pc + i.size)))
branch_goes s i t b at mode operand target branches =
    let same : i ≡ insn s i.size i.opcode i.cycles i.official i.mnemonic relative (rel b) =
      ground arith in
    let target' : t ≡ u16 (u16 (s.cpu.pc + i.size) + sign_extend b) = ground arith in
    rw (target', same) (branch-Goes s i.size i.opcode i.cycles i.official i.mnemonic b branches)

-- Where `branch_target` gives a target for an instruction that stands at the program counter,
-- executing it goes there; a branch may go on at the next instruction instead, and no other
-- instruction does.
pub perform-branch_target :
    {bus : Bus} (s : Machine bus) (i : Instruction) {t : ℕ}
    → s.cpu.pc ≡ i.pc
    → branch_target i ≡ some t
    → ((perform i s).1.cpu.pc ≡ t)
      ⊎ ((is_branch i.mnemonic ≡ true) × ((perform i s).1.cpu.pc ≡ u16 (i.pc + i.size)))
unfolding branch_target
perform-branch_target s i {t} at h = elim (Bool-cases (is_direct_jump i.mnemonic)) [
  | inl direct ↦
      let (absolutely, there) = absolute_target-some i.mode i.operand {t = t} (ground arith) in
      let same : i ≡ insn s i.size i.opcode i.cycles i.official i.mnemonic absolute (addr t) =
        ground arith in
      rw same (direct-Goes s i.size i.opcode i.cycles i.official i.mnemonic t direct)
  | inr other ↦ elim (Bool-cases (is_branch i.mnemonic)) [
    | inl branches ↦
        let (b, relatively, there, target) =
          relative_target-some (u16 (i.pc + i.size)) i.mode i.operand {t = t} (ground arith) in
        branch_goes s i t b at relatively there target branches
    | inr never ↦ absurd (ground arith)
  ]
]

abbrev pub has_timing : Option InstructionTiming → Bool
has_timing none = false
has_timing (some x) = true

-- The opcodes that the interpreter executes, the immediate LAX left out.
abbrev is_timed : ℕ → Bool
is_timed op = is_accepted op && not (op == 0xab)

timing_agrees : ℕ → Bool
timing_agrees op =
    if is_timed op
    then has_timing (timing (decoded [] 0 0 op))
    else not (has_timing (timing (decoded [] 0 0 op)))

timing_table : all_below 256 timing_agrees ≡ true
unfolding all_below timing_agrees is_accepted is_jam is_unstable timing decoded opcode_info
timing_table = refl

timing-decoded :
    (bytes : List ℕ) (pc offset op : ℕ)
    → timing (decoded bytes pc offset op) ≡ timing (decoded [] 0 0 op)
unfolding timing decoded
timing-decoded bytes pc offset op = refl

-- A decoded instruction has a timing class exactly when the interpreter executes its opcode, the
-- immediate LAX apart, which it executes and which has none.
pub timing-is_accepted :
    (bytes : List ℕ) (pc offset op : ℕ)
    → op < 256
    → has_timing (timing (decoded bytes pc offset op)) ≡ (is_accepted op && not (op == 0xab))
unfolding timing_agrees
timing-is_accepted bytes pc offset op h =
    ap has_timing (timing-decoded bytes pc offset op)
    ∙ (let here = all_below_sound 256 timing_agrees op timing_table h in ground (arith, here))
