-- ===== src/Oracle6502/Tests.antt =====
-- Runs of the interpreter on a flat memory.
use nes_to_sms.Base.{
  ℕ, ◌≡◌, refl, ◌==◌, if◌then◌else◌, ok, err, ◌⊎◌, ◌+◌, ◌-◌, ◌*◌, ◌%◌, ◌^◌, ◌<◌, ◌≤◌, leb, ltb, not,
  ◌&&◌, true, false, some, [], ◌∷◌, u16, digit, arith,
}
use nes_to_sms.Cpu6502.Isa.{Instruction, operand_bytes, is_branch}
use nes_to_sms.Cpu6502.Table.{opcode_info}
use nes_to_sms.Cpu6502.Decode.{
  decode_at, decoded, operand_of, branch_target, is_direct_jump, relative_target,
}
use nes_to_sms.Cpu6502.Timing.{timing}
use nes_to_sms.Oracle6502.Cpu.{Cpu, set_nz, do_adc, do_sbc, do_cmp, put_flag, bit_of, new}
use nes_to_sms.Oracle6502.Machine.{Machine, flat_bus, step_error, ◌>>=◌, pop16, nmi, monad}
use nes_to_sms.Oracle6502.Address.{resolve_ea, read_operand}
use nes_to_sms.Oracle6502.Execute.{execute, call, return, return_from_interrupt}
use nes_to_sms.Oracle6502.Step.{step, perform, run_until_rts, stepping}
use nes_to_sms.Oracle6502.Status.{digit-put_flag}
use nes_to_sms.Oracle6502.Arithmetic.{IsSum, biased, do_adc-IsSum, do_sbc-difference, do_cmp-order}
use nes_to_sms.Oracle6502.Hoare.{IsMachine, Ends, flat_laws}
use nes_to_sms.Oracle6502.Total.{is_accepted, refusal, fetched0, step-total}
use nes_to_sms.Oracle6502.Stack.{
  return-call, return_from_interrupt-nmi, return_from_interrupt-perform,
}
use nes_to_sms.Oracle6502.Budget.{Stops, run_until_rts-Stops}
use nes_to_sms.Oracle6502.Control.{has_timing, perform-branch_target, timing-is_accepted}

-- LDA #$80; ADC #$80; RTS at $8000.
abbrev program : ℕ → ℕ
program a =
    if a == 0x8000
    then 0xa9
    else (if a == 0x8001
        then 0x80
        else (if a == 0x8002
            then 0x69
            else (if a == 0x8003 then 0x80 else (if a == 0x8004 then 0x60 else 0))))

abbrev start : Machine flat_bus
start = record { cpu = record new { pc = 0x8000 }; mem = program }

adc_wraps : (run_until_rts 10 start).0 ≡ ok 3
unfolding monad stepping opcode_info decode_at decoded operand_bytes operand_of resolve_ea execute
    read_operand set_nz do_adc pop16
adc_wraps = refl

all_bytes : (a : ℕ) → program a < 256
all_bytes a = ground arith

start-IsMachine : IsMachine flat_laws start
unfolding new
start-IsMachine = record { cpu_ok = omega arith; mem_ok = all_bytes }

step-total_example :
    ((is_accepted (fetched0 start).0 ≡ true)
      × Ends flat_laws
          (λ i. (i.pc_before ≡ start.cpu.pc) × (i.opcode ≡ (fetched0 start).0))
          (step start).0
          (step start).1)
    ⊎ ((is_accepted (fetched0 start).0 ≡ false)
        × ((step start).0 ≡ err (step_error (refusal start.cpu.pc (fetched0 start).0)))
        × ((step start).1.cpu ≡ start.cpu))
step-total_example = step-total flat_laws start start-IsMachine

run_until_rts-Stops_example :
    Stops flat_laws (λ k. (0 < k) × (k ≤ 10)) (run_until_rts 10 start).0 (run_until_rts 10 start).1
run_until_rts-Stops_example = run_until_rts-Stops flat_laws 10 start (omega arith) start-IsMachine

-- A full accumulator and a carry.
abbrev full : Cpu
full = record { a = 0xff; x = 1; y = 2; sp = 0xfd; pc = 0x8000; p = 0x25 }

do_adc-IsSum_example : IsSum 0x01 (digit 0 full.p) full (do_adc 0x01 full)
do_adc-IsSum_example = do_adc-IsSum 0x01 full (omega arith) (omega arith) (omega arith)

do_sbc-difference_example :
    ((do_sbc 0x80 full).a + 0x80 + (1 - digit 0 full.p)
      ≡ full.a + 256 * (1 - digit 0 (do_sbc 0x80 full).p))
    × (digit 7 (do_sbc 0x80 full).p ≡ digit 7 (do_sbc 0x80 full).a)
    × (digit 1 (do_sbc 0x80 full).p ≡ bit_of ((do_sbc 0x80 full).a == 0))
    × (digit 6 (do_sbc 0x80 full).p
        ≡ bit_of (
            let s = biased full.a + 256 - biased 0x80 + digit 0 full.p - 1 in
            not (leb 128 s && ltb s 384)))
do_sbc-difference_example = do_sbc-difference 0x80 full (omega arith) (omega arith) (omega arith)

do_cmp-order_example :
    (digit 0 (do_cmp 3 5 full).p ≡ bit_of (leb 5 3))
    × (digit 1 (do_cmp 3 5 full).p ≡ bit_of (3 == 5))
    × (digit 7 (do_cmp 3 5 full).p ≡ digit 7 ((3 + 256 - 5) % 256))
    × ((j : ℕ) → 1 < j → j < 7 → digit j (do_cmp 3 5 full).p ≡ digit j full.p)
    × ((do_cmp 3 5 full).a ≡ full.a)
    × ((do_cmp 3 5 full).x ≡ full.x)
    × ((do_cmp 3 5 full).y ≡ full.y)
    × ((do_cmp 3 5 full).sp ≡ full.sp)
    × ((do_cmp 3 5 full).pc ≡ full.pc)
do_cmp-order_example = do_cmp-order 3 5 full (omega arith) (omega arith) (omega arith)

digit-put_flag_example :
    digit 6 (put_flag (2 ^ 6) true 0x25) ≡ (if 6 == 6 then bit_of true else digit 6 0x25)
digit-put_flag_example = digit-put_flag 6 6 true 0x25 (omega arith) (omega arith) (omega arith)

-- A stack pointer that wraps in the middle of the word.
abbrev low_stack : Machine flat_bus
low_stack = record { cpu = record full { sp = 0 }; mem = program }

return-call_example :
    ((call (some 0x9000) low_stack).1.cpu.pc ≡ 0x9000)
    × (((call (some 0x9000) >>= λ _. return) low_stack).1.cpu ≡ low_stack.cpu)
return-call_example = return-call 0x9000 low_stack (omega arith) (omega arith)

return_from_interrupt-nmi_example :
    ((nmi >>= λ _. return_from_interrupt) low_stack).1.cpu ≡ low_stack.cpu
return_from_interrupt-nmi_example =
    return_from_interrupt-nmi low_stack (omega arith) (omega arith) (omega arith, refl, refl)

return_from_interrupt-perform_example :
    ((perform (decoded (0x00 ∷ []) 0x8000 0 0x00) >>= λ _. return_from_interrupt) low_stack).1.cpu
    ≡ record low_stack.cpu { pc = u16 (low_stack.cpu.pc + 1) }
return_from_interrupt-perform_example =
    return_from_interrupt-perform (0x00 ∷ []) 0x8000 0 low_stack (omega arith)
      (omega arith, refl, refl)

-- BNE to itself.
abbrev loop : Instruction
loop = decoded (0xd0 ∷ 0xfe ∷ []) 0x8000 0 0xd0

loop-target : branch_target loop ≡ some 0x8000
unfolding branch_target decoded opcode_info operand_of operand_bytes is_direct_jump is_branch
    relative_target
loop-target = refl

perform-branch_target_example :
    ((perform loop start).1.cpu.pc ≡ 0x8000)
    ⊎ ((is_branch loop.mnemonic ≡ true)
        × ((perform loop start).1.cpu.pc ≡ u16 (loop.pc + loop.size)))
unfolding decoded
perform-branch_target_example = perform-branch_target start loop refl loop-target

timing-is_accepted_example :
    has_timing (timing (decoded (0x20 ∷ []) 0 0 0x20)) ≡ (is_accepted 0x20 && not (0x20 == 0xab))
timing-is_accepted_example = timing-is_accepted (0x20 ∷ []) 0 0 0x20 (omega arith)
