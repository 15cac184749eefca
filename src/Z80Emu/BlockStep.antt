-- ===== src/Z80Emu/BlockStep.antt =====
-- crates/z80_emu/src/lib.rs: one iteration of LDIR on the flat memory.
use nes_to_sms.Base.{
  ℕ, zero, suc, ◌+◌, ◌-◌, ◌<◌, ◌==◌, ◌≡◌, refl, ap, ◌∙◌, arith, u16, Bool, true, false, not, ok,
  if◌then◌else◌,
}
use nes_to_sms.Z80Emu.Cpu.{Cpu, approx_cycles, bc, de, hl, put_flag, set_bc, set_de, set_hl}
use nes_to_sms.Z80Emu.Machine.{flat_bus, Machine, monad, ◌>>◌, modify, fetch_byte, arm_of}
use nes_to_sms.Z80Emu.Block.{copy_block, copied, repeat_if}
use nes_to_sms.Z80Emu.Extended.{step_ed, interrupt_arms, pair_arms, block_arms}
use nes_to_sms.Z80Emu.Step.{dispatch, execute, settle, step}
use nes_to_sms.Z80Emu.Stack.{word-bytes}

-- A machine that runs, and is about to do what the opcode says.
pub execute-opcode :
    (s : Machine flat_bus) (op : ℕ)
    → s.mem s.cpu.pc ≡ op
    → execute s
      ≡ (dispatch s.cpu.pc op >> modify settle) (record s {
        cpu = record s.cpu { pc = u16 (s.cpu.pc + 1); cycles = s.cpu.cycles + approx_cycles op };
      })
unfolding execute fetch_byte monad
execute-opcode s op h = rw h refl

-- The prefix is fetched.
abbrev advanced : Machine flat_bus → Machine flat_bus
advanced s = record s { cpu = record s.cpu { pc = u16 (s.cpu.pc + 1); cycles = s.cpu.cycles + 14 } }

step_ed-ldir :
    (s : Machine flat_bus) (pc : ℕ)
    → s.mem s.cpu.pc ≡ 0xb0
    → step_ed pc s ≡ copy_block 1 true (record s { cpu = record s.cpu { pc = u16 (s.cpu.pc + 1) } })
unfolding step_ed fetch_byte monad arm_of interrupt_arms pair_arms block_arms
step_ed-ldir s pc h = rw h refl

settle-pending : (r : Cpu) → settle r ≡ record r { ei_pending = r.ei_pending - 1 }
unfolding settle
settle-pending r = ground arith

repeated :
    (again : Bool) (r : Cpu)
    → repeat_if again r ≡ record r {
      pc = if again then u16 (r.pc + 65534) else r.pc;
      cycles = if again then r.cycles + 7 else r.cycles + 2;
    }
unfolding repeat_if
repeated true r = refl
repeated false r = refl

-- The registers after an iteration on `r`, whose program counter is behind the instruction.
abbrev pub turned : Cpu → Cpu
turned r =
    let count = u16 (bc r + 65535) in
    let moved = set_bc count (set_de (u16 (de r + 1)) (set_hl (u16 (hl r + 1)) r)) in
    record moved {
      f = put_flag 4 (not (count == 0)) (put_flag 16 false (put_flag 2 false r.f));
      pc = if not (count == 0) then u16 (r.pc + 65534) else r.pc;
      cycles = if not (count == 0) then r.cycles + 7 else r.cycles + 2;
      ei_pending = r.ei_pending - 1;
    }

settle-copied : (r : Cpu) → settle (copied 1 true r) ≡ turned r
unfolding copied
settle-copied r = ap settle (repeated _ _) ∙ settle-pending _

-- The prefix and the opcode are fetched.
abbrev pub fetched : Cpu → Cpu
fetched r = record r { pc = u16 (u16 (r.pc + 1) + 1); cycles = r.cycles + 14 }

-- The machine after an iteration.
abbrev pub after_turn : Machine flat_bus → Machine flat_bus
after_turn s = record s {
  cpu = turned (fetched s.cpu);
  mem = flat_bus.write_byte (de s.cpu) (s.mem (hl s.cpu)) s.mem;
}

step-running : (s : Machine flat_bus) → s.cpu.halted ≡ false → step s ≡ execute s
unfolding step monad
step-running s h = rw h refl

dispatch-ldir :
    (s : Machine flat_bus) (pc : ℕ)
    → s.mem s.cpu.pc ≡ 0xb0
    → (dispatch pc 0xed >> modify settle) s ≡ (
      ok tt,
      record s {
        cpu = turned (record s.cpu { pc = u16 (s.cpu.pc + 1) });
        mem = flat_bus.write_byte (de s.cpu) (s.mem (hl s.cpu)) s.mem;
      },
    )
unfolding dispatch monad copy_block
dispatch-ldir s pc h =
    rw (step_ed-ldir s pc h) (rw (settle-copied (record s.cpu { pc = u16 (s.cpu.pc + 1) })) refl)

pub step-ldir :
    (s : Machine flat_bus)
    → s.cpu.halted ≡ false
    → s.mem s.cpu.pc ≡ 0xed
    → s.mem (u16 (s.cpu.pc + 1)) ≡ 0xb0
    → step s ≡ (ok tt, after_turn s)
unfolding approx_cycles
step-ldir s run ed b0 =
    step-running s run ∙ execute-opcode s 0xed ed ∙ dispatch-ldir (advanced s) s.cpu.pc b0

-- Where the loop stands: the count that is left, the two pointers, the cycles so far and the memory.
pub record At (left src dst cycles : ℕ) (mem : ℕ → ℕ) (s : Machine flat_bus) : Type 0 where
  pub running : s.cpu.halted ≡ false
  pub count : bc s.cpu ≡ left
  pub source : hl s.cpu ≡ src
  pub target : de s.cpu ≡ dst
  pub time : s.cpu.cycles ≡ cycles
  pub memory : s.mem ≡ mem

-- The last iteration is told from the others by the count that is left.
abbrev pub at_end {ℓ} : {A : Type ℓ} → ℕ → A → A → A
at_end zero last more = last
at_end (suc n) last more = more

at_end-not : (n x y : ℕ) → (if not (n == 0) then x else y) ≡ at_end n y x
at_end-not zero x y = refl
at_end-not (suc n) x y = ground arith

turned_time :
    (n t cycles : ℕ)
    → t ≡ cycles
    → at_end n (t + 14 + 2) (t + 14 + 7) ≡ at_end n (cycles + 16) (cycles + 21)
turned_time zero t cycles e = omega (arith, e)
turned_time (suc n) t cycles e = omega (arith, e)

turned_pc :
    (n pc : ℕ)
    → pc < 65536
    → at_end n (u16 (u16 (pc + 1) + 1)) (u16 (u16 (u16 (pc + 1) + 1) + 65534))
      ≡ at_end n (u16 (pc + 2)) pc
turned_pc zero pc h = omega arith
turned_pc (suc n) pc h = omega arith

pub turned-At :
    (s : Machine flat_bus) (n src dst cycles : ℕ) (mem : ℕ → ℕ)
    → suc n < 65536
    → src < 65536
    → dst < 65536
    → At (suc n) src dst cycles mem s
    → At n
        (u16 (src + 1))
        (u16 (dst + 1))
        (at_end n (cycles + 16) (cycles + 21))
        (flat_bus.write_byte dst (mem src) mem)
        (after_turn s)
turned-At s n src dst cycles mem hn hs hd at =
    let once : u16 (bc s.cpu + 65535) ≡ n = omega (arith, at.count) in
    rw (once, at.source, at.target)
      record {
        running = at.running;
        count = word-bytes n (omega arith);
        source = word-bytes (u16 (src + 1)) (omega arith);
        target = word-bytes (u16 (dst + 1)) (omega arith);
        time = at_end-not n _ _ ∙ turned_time n s.cpu.cycles cycles at.time;
        memory = rw (at.memory) refl;
      }

pub turned-pc :
    (s : Machine flat_bus) (n : ℕ)
    → suc n < 65536
    → s.cpu.pc < 65536
    → bc s.cpu ≡ suc n
    → (turned (fetched s.cpu)).pc ≡ at_end n (u16 (s.cpu.pc + 2)) s.cpu.pc
turned-pc s n hn hp count =
    let once : u16 (bc s.cpu + 65535) ≡ n = omega (arith, count) in
    rw once (at_end-not n _ _ ∙ turned_pc n s.cpu.pc hp)
