-- ===== src/Z80Emu/Machine.antt =====
-- crates/z80_emu/src/lib.rs: the `Bus` trait, the CPU together with what is behind the bus, and the
-- operations that fetch, push and pop. The bus is a parameter: a read or a port may change its state.
use nes_to_sms.Base.{ℕ, ◌+◌, ◌==◌, u16, Option, if◌then◌else◌, ok, List, [], ◌∷◌}
unfoldable pub use nes_to_sms.Base.Exec.{Exec, pure, fail, after, ◌>>=◌, ◌>>◌, get}
use nes_to_sms.Z80Emu.Cpu.{Cpu, word, high, low, hl, read_r, write_r}

pub record Bus : Type 1 where
  pub Mem : Type 0
  pub read_byte : ℕ → Mem → ℕ × Mem
  pub write_byte : ℕ → ℕ → Mem → Mem
  pub in_port : ℕ → Mem → ℕ × Mem
  pub out_port : ℕ → ℕ → Mem → Mem

-- The flat memory has the ports of the trait's default methods.
abbrev pub flat_bus : Bus
flat_bus = record {
  Mem = ℕ → ℕ;
  read_byte = λ a m. (m a, m);
  write_byte = λ a v m b. if a == b then v else m b;
  in_port = λ p m. (0xff, m);
  out_port = λ p v m. m;
}

pub data StepError : Type 0 where
  unsupported_opcode : (pc opcode : ℕ) (prefix : Option ℕ) → StepError
  halt step_limit_exceeded : StepError

-- An error of the interpreter, or a panic of the source.
pub data Stop : Type 0 where
  step_error : StepError → Stop
  panic : Stop

pub record Machine (bus : Bus) : Type 0 where
  pub cpu : Cpu
  pub mem : bus.Mem

abbrev pub M : Bus → Type 0 → Type 0
M bus A = Exec Stop (Machine bus) A

module _ {bus : Bus} where
  unfoldable pub get_cpu : M bus Cpu
  get_cpu s = (ok s.cpu, s)

  unfoldable pub modify : (Cpu → Cpu) → M bus (Unit {0})
  modify f s = (ok tt, record s { cpu = f s.cpu })

  unfoldable pub read : ℕ → M bus ℕ
  read a s = let (v, mem) = bus.read_byte a s.mem in (ok v, record s { mem = mem })

  unfoldable pub write : ℕ → ℕ → M bus (Unit {0})
  write a v s = (ok tt, record s { mem = bus.write_byte a v s.mem })

  unfoldable pub in_port : ℕ → M bus ℕ
  in_port p s = let (v, mem) = bus.in_port p s.mem in (ok v, record s { mem = mem })

  unfoldable pub out_port : ℕ → ℕ → M bus (Unit {0})
  out_port p v s = (ok tt, record s { mem = bus.out_port p v s.mem })

  unfoldable pub fetch_byte : M bus ℕ
  fetch_byte = do r ← get_cpu; b ← read r.pc; modify (λ r. record r { pc = u16 (r.pc + 1) }); pure b

  unfoldable pub fetch_word : M bus ℕ
  unfolding fetch_byte
  fetch_word = do lo ← fetch_byte; hi ← fetch_byte; pure (word hi lo)

  unfoldable pub push_word : ℕ → M bus (Unit {0})
  push_word v = do
    modify (λ r. record r { sp = u16 (r.sp + 65535) })
    r ← get_cpu
    write r.sp (high v)
    modify (λ r. record r { sp = u16 (r.sp + 65535) })
    r ← get_cpu
    write r.sp (low v)

  unfoldable pub pop_word : M bus ℕ
  pop_word = do
    r ← get_cpu
    lo ← read r.sp
    modify (λ r. record r { sp = u16 (r.sp + 1) })
    r ← get_cpu
    hi ← read r.sp
    modify (λ r. record r { sp = u16 (r.sp + 1) })
    pure (word hi lo)

  -- The operand of a register number, where 6 is the byte at HL.
  unfoldable pub read_operand : ℕ → M bus ℕ
  read_operand n = do r ← get_cpu; if n == 6 then read (hl r) else pure (read_r n r)

  unfoldable pub write_operand : ℕ → ℕ → M bus (Unit {0})
  write_operand n v = do r ← get_cpu; if n == 6 then write (hl r) v else modify (write_r n v)

  -- The arm of an opcode in a list of arms, or what stands after them.
  unfoldable pub arm_of : ℕ → List (ℕ × M bus (Unit {0})) → M bus (Unit {0}) → M bus (Unit {0})
  arm_of op [] other = other
  arm_of op ((code, arm) ∷ arms) other =
      let rest = arm_of op arms other in if op == code then arm else rest

-- The operations of the monad, to be unfolded together.
unfoldable pub monad : Unit {0}
unfolding pure fail ◌>>=◌ get_cpu modify read write in_port out_port
monad = tt
