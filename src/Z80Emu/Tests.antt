-- ===== src/Z80Emu/Tests.antt =====
-- crates/z80_emu/src/lib.rs: programs like those of its tests, run on the flat memory.
use nes_to_sms.Base.{
  ℕ, ◌+◌, ◌*◌, ◌/◌, ◌%◌, ◌<◌, ◌≤◌, ◌==◌, ◌≡◌, ◌≢◌, refl, arith, ok, ltb, true, false, not, ◌||◌,
  if◌then◌else◌, u16, digit,
}
use nes_to_sms.Oracle6502.Arithmetic.{overflows}
use nes_to_sms.Z80Emu.Cpu.{new, word, bc, de, hl, bit_of, alu_add, sub_a, alu_cp}
use nes_to_sms.Z80Emu.Machine.{flat_bus, Machine, ◌>>=◌}
use nes_to_sms.Z80Emu.High.{call, return_to}
use nes_to_sms.Z80Emu.Shifts.{shift_result, shift_carry}
use nes_to_sms.Z80Emu.Step.{step, run_until_ret}
use nes_to_sms.Z80Emu.Bounds.{IsCpu}
use nes_to_sms.Z80Emu.Hoare.{IsMachine, Ends, Any, flat_laws}
use nes_to_sms.Z80Emu.Safety.{step-Ends, run_until_ret-Ends}
use nes_to_sms.Z80Emu.Arithmetic.{
  IsResult, taken, underflows, alu_add-IsResult, sub_a-IsResult, alu_cp-order,
}
use nes_to_sms.Z80Emu.Stack.{return_to-call}
use nes_to_sms.Z80Emu.BlockCopy.{steps, steps-ldir}
use nes_to_sms.Z80Emu.Rotations.{shift_result-inverse}

-- LDIR; RET at 0x100, over memory that holds 0 elsewhere.
abbrev program : ℕ → ℕ
program a =
    if a == 0x100 then 0xed else (if a == 0x101 then 0xb0 else (if a == 0x102 then 0xc9 else 0))

-- Three bytes from 0x100 on are to be copied to 0x200 and on.
abbrev start : Machine flat_bus
start = record {
  cpu = record new { pc = 0x100; sp = 0x8000; h = 0x01; d = 0x02; c = 3; a = 0xf0; f = 0x01 };
  mem = program;
}

all_bytes : (a : ℕ) → program a < 256
all_bytes a = ground arith

start-IsCpu : IsCpu start.cpu
unfolding new
start-IsCpu = ground arith

start-IsMachine : IsMachine flat_laws start
start-IsMachine = record { cpu_ok = start-IsCpu; mem_ok = all_bytes }

steps-ldir_example :
    let t = steps 3 start in
    (t.0 ≡ ok tt)
    × (t.1.cpu.pc ≡ u16 (start.cpu.pc + 2))
    × (bc t.1.cpu ≡ 0)
    × (hl t.1.cpu ≡ u16 (hl start.cpu + 3))
    × (de t.1.cpu ≡ u16 (de start.cpu + 3))
    × (t.1.cpu.cycles ≡ start.cpu.cycles + 21 * 2 + 16)
    × ((i : ℕ) → i < 3 → t.1.mem (u16 (de start.cpu + i)) ≡ start.mem (u16 (hl start.cpu + i)))
    × ((b : ℕ) → ((i : ℕ) → i < 3 → u16 (de start.cpu + i) ≢ b) → t.1.mem b ≡ start.mem b)
    × ((k : ℕ)
        → k ≤ 2
        → let u = steps k start in
          (u.0 ≡ ok tt)
          × (u.1.cpu.pc ≡ start.cpu.pc)
          × (u.1.cpu.cycles ≡ start.cpu.cycles + 21 * k))
unfolding word new
steps-ldir_example =
    steps-ldir 2 start (omega arith) start-IsCpu refl refl refl refl
      (λ i h. (λ e. omega (arith, e), λ e. omega (arith, e))) (λ i j hi hj e. omega (arith, e))

step-Ends_example : Ends flat_laws Any (step start).0 (step start).1
step-Ends_example = step-Ends flat_laws start start-IsMachine

run_until_ret-Ends_example :
    Ends flat_laws (λ k. (0 < k) × (k ≤ 20)) (run_until_ret 20 start).0 (run_until_ret 20 start).1
run_until_ret-Ends_example = run_until_ret-Ends flat_laws 20 start (omega arith) start-IsMachine

alu_add-IsResult_example :
    let c = taken true start.cpu in
    let d = alu_add 0x90 true start.cpu in
    (d.a + 256 * digit 0 d.f ≡ start.cpu.a + 0x90 + c)
    × IsResult d.a
        ((start.cpu.a + 0x90 + c) / 256)
        0
        (bit_of (overflows start.cpu.a 0x90 c))
        ((start.cpu.a % 16 + 0x90 % 16 + c) / 16)
        d.f
    × (record d { a = start.cpu.a; f = start.cpu.f } ≡ start.cpu)
unfolding new
alu_add-IsResult_example = alu_add-IsResult 0x90 true start.cpu (omega arith) (omega arith)

sub_a-IsResult_example :
    let c = taken true start.cpu in
    let d = sub_a 0xf1 true start.cpu in
    (d.a + 0xf1 + c ≡ start.cpu.a + 256 * digit 0 d.f)
    × IsResult d.a
        (bit_of (ltb start.cpu.a (0xf1 + c)))
        1
        (bit_of (underflows start.cpu.a 0xf1 c))
        (bit_of (ltb (start.cpu.a % 16) (0xf1 % 16 + c)))
        d.f
    × (record d { a = start.cpu.a; f = start.cpu.f } ≡ start.cpu)
unfolding new
sub_a-IsResult_example = sub_a-IsResult 0xf1 true start.cpu (omega arith) (omega arith)

alu_cp-order_example :
    ((j : ℕ)
      → j < 8
      → not (j == 3 || j == 5) ≡ true
      → digit j (alu_cp 0xf0 start.cpu).f ≡ digit j (sub_a 0xf0 false start.cpu).f)
    × (digit 3 (alu_cp 0xf0 start.cpu).f ≡ digit 3 0xf0)
    × (digit 5 (alu_cp 0xf0 start.cpu).f ≡ digit 5 0xf0)
    × (digit 0 (alu_cp 0xf0 start.cpu).f ≡ bit_of (ltb start.cpu.a 0xf0))
    × (digit 6 (alu_cp 0xf0 start.cpu).f ≡ bit_of (start.cpu.a == 0xf0))
    × (record (alu_cp 0xf0 start.cpu) { f = start.cpu.f } ≡ start.cpu)
unfolding new
alu_cp-order_example = alu_cp-order 0xf0 start.cpu (omega arith) (omega arith)

-- A stack pointer that wraps in the middle of the word.
abbrev low_stack : Machine flat_bus
low_stack = record { cpu = record new { sp = 1; pc = 0xffff }; mem = program }

return_to-call_example :
    let next = u16 (low_stack.cpu.pc + 2) in
    ((call low_stack).1.cpu.pc
      ≡ word (low_stack.mem (u16 (low_stack.cpu.pc + 1))) (low_stack.mem low_stack.cpu.pc))
    × (((call >>= λ _. return_to) low_stack).1.cpu
        ≡ record low_stack.cpu { pc = next; memptr = next })
unfolding new
return_to-call_example = return_to-call low_stack (omega arith) (omega arith)

shift_result-inverse_example :
    (shift_result 1 true (shift_result 0 true 0x81) ≡ 0x81)
    × (shift_result 0 true (shift_result 1 true 0x81) ≡ 0x81)
    × (shift_result 3 (shift_carry 2 0x81) (shift_result 2 true 0x81) ≡ 0x81)
    × (bit_of (shift_carry 3 (shift_result 2 true 0x81)) ≡ bit_of true)
    × (shift_result 2 (shift_carry 3 0x81) (shift_result 3 true 0x81) ≡ 0x81)
    × (bit_of (shift_carry 2 (shift_result 3 true 0x81)) ≡ bit_of true)
shift_result-inverse_example = shift_result-inverse true 0x81 (omega arith)
