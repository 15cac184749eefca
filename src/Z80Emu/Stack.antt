-- ===== src/Z80Emu/Stack.antt =====
-- crates/z80_emu/src/lib.rs: what is pushed is popped, and a call returns, on the flat memory.
use nes_to_sms.Base.{ℕ, ◌+◌, ◌*◌, ◌<◌, ◌≡◌, ◌≢◌, refl, ◌∙◌, arith, u16, ok, bit_or_shifted}
use nes_to_sms.Z80Emu.Cpu.{word, high, low}
use nes_to_sms.Z80Emu.Machine.{
  flat_bus, Machine, monad, ◌>>=◌, fetch_byte, fetch_word, push_word, pop_word,
}
use nes_to_sms.Z80Emu.High.{call, return_to}

pub word-sum : (hi lo : ℕ) → lo < 256 → word hi lo ≡ hi * 256 + lo
unfolding word
word-sum hi lo h = bit_or_shifted 8 hi lo h

pub word-bytes : (v : ℕ) → v < 65536 → word (high v) (low v) ≡ v
word-bytes v h = word-sum (high v) (low v) (omega arith) ∙ omega arith

-- On the flat bus, for a 16-bit word and any 16-bit stack pointer, a word that was pushed is popped,
-- every register is as it was, and no memory but the two bytes below the stack pointer changes.
pub pop_word-push_word :
    (v : ℕ) (s : Machine flat_bus)
    → v < 65536
    → s.cpu.sp < 65536
    → let r = (push_word v >>= λ _. pop_word) s in
      (r.0 ≡ ok v)
      × (r.1.cpu ≡ s.cpu)
      × ((b : ℕ) → b ≢ u16 (s.cpu.sp + 65535) → b ≢ u16 (s.cpu.sp + 65534) → r.1.mem b ≡ s.mem b)
unfolding monad push_word pop_word
pop_word-push_word v s hv hs =
    let down = u16 (s.cpu.sp + 65535) in
    let once : u16 (u16 (down + 65535) + 1) ≡ down = omega arith in
    let twice : u16 (down + 1) ≡ s.cpu.sp = omega arith in
    rw (once, twice) (ground (arith, word-bytes v hv), refl, λ b out1 out2. ground arith)

-- On the flat bus, with 16-bit registers, CALL goes to the word after its opcode, and the RET right
-- after it comes back behind that word with every other register but the memory pointer as it was.
pub return_to-call :
    (s : Machine flat_bus)
    → s.cpu.sp < 65536
    → s.cpu.pc < 65536
    → let next = u16 (s.cpu.pc + 2) in
      ((call s).1.cpu.pc ≡ word (s.mem (u16 (s.cpu.pc + 1))) (s.mem s.cpu.pc))
      × (((call >>= λ _. return_to) s).1.cpu ≡ record s.cpu { pc = next; memptr = next })
unfolding monad call return_to fetch_word fetch_byte push_word pop_word
return_to-call s hs hp =
    let down = u16 (s.cpu.sp + 65535) in
    let once : u16 (u16 (down + 65535) + 1) ≡ down = omega arith in
    let twice : u16 (down + 1) ≡ s.cpu.sp = omega arith in
    let after : u16 (u16 (s.cpu.pc + 1) + 1) ≡ u16 (s.cpu.pc + 2) = omega arith in
    rw (once, twice, after) (refl, ground (arith, word-bytes (u16 (s.cpu.pc + 2)) (omega arith)))
