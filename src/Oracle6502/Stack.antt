-- ===== src/Oracle6502/Stack.antt =====
-- crates/oracle_6502/src/lib.rs: what is pushed is pulled, on a flat memory, wherever the stack
-- pointer stands in its page.
use nes_to_sms.Base.{
  ℕ, ◌+◌, ◌*◌, ◌/◌, ◌<◌, ◌≤◌, ◌==◌, ◌≡◌, ◌∙◌, refl, arith, true, ◌⊎◌, bit_and, bit_or,
  bit_or_shifted, not8, u8, u16, all_below, List, some, ok, all_below_sound, digit, not, ◌&&◌, ◌||◌,
}
use nes_to_sms.Cpu6502.Isa.{operand_bytes}
use nes_to_sms.Cpu6502.Table.{opcode_info}
use nes_to_sms.Cpu6502.Decode.{decoded, operand_of}
use nes_to_sms.Oracle6502.Cpu.{flag_b, flag_u}
use nes_to_sms.Oracle6502.Machine.{
  flat_bus, Machine, monad, ◌>>=◌, push, pop, push16, pop16, read16, interrupt, nmi,
}
use nes_to_sms.Oracle6502.Execute.{
  pulled_status, pushed_status, call, return, return_from_interrupt, break, execute,
}
use nes_to_sms.Oracle6502.Address.{resolve_ea}
use nes_to_sms.Oracle6502.Step.{perform}
use nes_to_sms.Oracle6502.Status.{IsStatus}

stack_address : (sp : ℕ) → sp < 256 → bit_or 0x0100 sp ≡ 256 + sp
stack_address sp h = bit_or_shifted 8 1 sp h

word_again : (v : ℕ) → v < 65536 → bit_or (u8 (v / 256) * 256) (u8 v) ≡ v
word_again v h = bit_or_shifted 8 (u8 (v / 256)) (u8 v) (omega arith) ∙ omega arith

-- On the flat bus, for a 16-bit word and each byte as the stack pointer, pulling a word that was
-- pushed gives it back and leaves every register, and no memory outside the stack page changes.
pub pop16-push16 :
    (v : ℕ) (s : Machine flat_bus)
    → v < 65536
    → s.cpu.sp < 256
    → let r = (push16 v >>= λ _. pop16) s in
      (r.0 ≡ ok v) × (r.1.cpu ≡ s.cpu) × ((b : ℕ) → (b < 256) ⊎ (512 ≤ b) → r.1.mem b ≡ s.mem b)
unfolding monad push16 pop16 push pop
pop16-push16 v s hv hs =
    let down = u8 (s.cpu.sp + 255) in
    let once : u8 (u8 (down + 255) + 1) ≡ down = omega arith in
    let twice : u8 (down + 1) ≡ s.cpu.sp = omega arith in
    rw (once, twice, stack_address s.cpu.sp hs, stack_address down (omega arith))
      (ground (arith, word_again v hv), refl, λ b out. ground arith)

-- On the flat bus, with a byte as the stack pointer and a 16-bit program counter that stands after
-- the call, a call goes to its target, and the return right after it leaves every register as it
-- was, the program counter among them.
pub return-call :
    (a : ℕ) (s : Machine flat_bus)
    → s.cpu.sp < 256
    → s.cpu.pc < 65536
    → ((call (some a) s).1.cpu.pc ≡ a) × (((call (some a) >>= λ _. return) s).1.cpu ≡ s.cpu)
unfolding call return monad push16 pop16 push pop
return-call a s hs hp =
    let v = u16 (s.cpu.pc + 65535) in
    let down = u8 (s.cpu.sp + 255) in
    let once : u8 (u8 (down + 255) + 1) ≡ down = omega arith in
    let twice : u8 (down + 1) ≡ s.cpu.sp = omega arith in
    (
      refl,
      rw (once, twice, stack_address s.cpu.sp hs, stack_address down (omega arith))
          (ground (arith, word_again v (omega arith))),
    )

status_kept_table :
    all_below 256 (λ p.
      not (digit 5 p == 1 && digit 4 p == 0)
      || pulled_status (bit_or (bit_and p (not8 flag_b)) flag_u) == p)
    ≡ true
unfolding all_below pulled_status
status_kept_table = refl

status_kept : (p : ℕ) → IsStatus p → pulled_status (bit_or (bit_and p (not8 flag_b)) flag_u) ≡ p
status_kept p h =
    let here =
      all_below_sound 256
        (λ q.
          not (digit 5 q == 1 && digit 4 q == 0)
          || pulled_status (bit_or (bit_and q (not8 flag_b)) flag_u) == q)
        p status_kept_table h.0 in
    ground (arith, here)

-- On the flat bus, with a byte as the stack pointer, a 16-bit program counter and a status byte
-- that has bit 5 set and bit 4 clear, an NMI that returns at once leaves every register as it was,
-- the status with its interrupt flag among them.
pub return_from_interrupt-nmi :
    (s : Machine flat_bus)
    → s.cpu.sp < 256
    → s.cpu.pc < 65536
    → IsStatus s.cpu.p
    → ((nmi >>= λ _. return_from_interrupt) s).1.cpu ≡ s.cpu
unfolding nmi interrupt return_from_interrupt monad push16 pop16 push pop read16
return_from_interrupt-nmi s hs hp hst =
    let d1 = u8 (s.cpu.sp + 255) in
    let d2 = u8 (d1 + 255) in
    let up2 : u8 (u8 (d2 + 255) + 1) ≡ d2 = omega arith in
    let up1 : u8 (d2 + 1) ≡ d1 = omega arith in
    let up0 : u8 (d1 + 1) ≡ s.cpu.sp = omega arith in
    rw
      (
        up2,
        up1,
        up0,
        stack_address s.cpu.sp hs,
        stack_address d1 (omega arith),
        stack_address d2 (omega arith),
      )
      (ground (arith, word_again s.cpu.pc hp, status_kept s.cpu.p hst))

broken_status_table :
    all_below 256
      (λ p. not (digit 5 p == 1 && digit 4 p == 0) || pulled_status (pushed_status p) == p)
    ≡ true
unfolding all_below pulled_status pushed_status
broken_status_table = refl

broken_status : (p : ℕ) → IsStatus p → pulled_status (pushed_status p) ≡ p
broken_status p h =
    let here =
      all_below_sound 256
        (λ q. not (digit 5 q == 1 && digit 4 q == 0) || pulled_status (pushed_status q) == q) p
        broken_status_table h.0 in
    ground (arith, here)

return-break :
    (s : Machine flat_bus)
    → s.cpu.sp < 256
    → s.cpu.pc < 65536
    → IsStatus s.cpu.p
    → ((break >>= λ _. return_from_interrupt) s).1.cpu ≡ s.cpu
unfolding break return_from_interrupt monad push16 pop16 push pop read16
return-break s hs hp hst =
    let d1 = u8 (s.cpu.sp + 255) in
    let d2 = u8 (d1 + 255) in
    let up2 : u8 (u8 (d2 + 255) + 1) ≡ d2 = omega arith in
    let up1 : u8 (d2 + 1) ≡ d1 = omega arith in
    let up0 : u8 (d1 + 1) ≡ s.cpu.sp = omega arith in
    rw
      (
        up2,
        up1,
        up0,
        stack_address s.cpu.sp hs,
        stack_address d1 (omega arith),
        stack_address d2 (omega arith),
      )
      (ground (arith, word_again s.cpu.pc hp, broken_status s.cpu.p hst))

-- On the flat bus, with a byte as the stack pointer and a status byte that has bit 5 set and bit 4
-- clear, an executed BRK and the RTI right after it leave every register as it was but the program
-- counter, which is one past the BRK opcode.
pub return_from_interrupt-perform :
    (bytes : List ℕ) (pc offset : ℕ) (s : Machine flat_bus)
    → s.cpu.sp < 256
    → IsStatus s.cpu.p
    → ((perform (decoded bytes pc offset 0x00) >>= λ _. return_from_interrupt) s).1.cpu
      ≡ record s.cpu { pc = u16 (s.cpu.pc + 1) }
unfolding perform decoded opcode_info operand_bytes operand_of execute resolve_ea monad
return_from_interrupt-perform bytes pc offset s hs hst =
    return-break (record s { cpu = record s.cpu { pc = u16 (s.cpu.pc + 1) } }) hs (omega arith) hst
