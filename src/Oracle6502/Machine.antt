-- ===== src/Oracle6502/Machine.antt =====
-- crates/oracle_6502/src/lib.rs: the `Bus` trait, and the CPU together with the memory behind it
-- as a state monad with errors. A panic of the source is the error `panic`; an error keeps the
-- state that it was met in, as `&mut self` does.
use nes_to_sms.Base.{
  ℕ, ◌+◌, ◌*◌, ◌/◌, ◌==◌, u8, u16, bit_and, bit_or, not8, Option, none, some, if◌then◌else◌, Result,
  ok, err,
}
use nes_to_sms.Cpu6502.Decode.{DecodeError}
use nes_to_sms.Oracle6502.Cpu.{Cpu, flag, flag_i, flag_b, flag_u}

-- A read may change the memory, as memory-mapped hardware does.
pub record Bus : Type 1 where
  pub Mem : Type 0
  pub read_byte : ℕ → Mem → ℕ × Mem
  pub write_byte : ℕ → ℕ → Mem → Mem

abbrev pub flat_bus : Bus
flat_bus = record {
  Mem = ℕ → ℕ;
  read_byte = λ a m. (m a, m);
  write_byte = λ a v m b. if a == b then v else m b;
}

pub data StepError : Type 0 where
  unstable_opcode jam_opcode : ℕ → ℕ → StepError
  decode_error : DecodeError → StepError
  halt step_limit_exceeded : StepError

pub data Stop : Type 0 where
  step_error : StepError → Stop
  panic : Stop

pub record Machine (bus : Bus) : Type 0 where
  pub cpu : Cpu
  pub mem : bus.Mem

abbrev pub M : Bus → Type 0 → Type 0
M bus A = Machine bus → Result Stop A × Machine bus

module _ {bus : Bus} where
  unfoldable pub pure : {A : Type 0} → A → M bus A
  pure a s = (ok a, s)

  unfoldable pub fail : {A : Type 0} → Stop → M bus A
  fail e s = (err e, s)

  unfoldable pub after :
      {A B : Type 0} → Result Stop A → Machine bus → (A → M bus B) → Result Stop B × Machine bus
  after (ok a) s f = f a s
  after (err e) s f = (err e, s)

  infixl 5 ◌>>=◌ ◌>>◌
  unfoldable pub ◌>>=◌ : {A B : Type 0} → M bus A → (A → M bus B) → M bus B
  unfolding after
  ◌>>=◌ m f s = after (m s).0 (m s).1 f

  abbrev pub ◌>>◌ : {B : Type 0} → M bus (Unit {0}) → M bus B → M bus B
  m >> k = m >>= λ _. k

  unfoldable pub get_cpu : M bus Cpu
  get_cpu s = (ok s.cpu, s)

  unfoldable pub modify : (Cpu → Cpu) → M bus (Unit {0})
  modify f s = (ok tt, record s { cpu = f s.cpu })

  unfoldable pub read : ℕ → M bus ℕ
  read a s = let (v, mem) = bus.read_byte a s.mem in (ok v, record s { mem = mem })

  unfoldable pub write : ℕ → ℕ → M bus (Unit {0})
  write a v s = (ok tt, record s { mem = bus.write_byte a v s.mem })

  unfoldable pub unwrap : {A : Type 0} → Option A → M bus A
  unwrap none = fail panic
  unwrap (some a) = pure a

  unfoldable pub push : ℕ → M bus (Unit {0})
  push v = do
    c ← get_cpu
    write (bit_or 0x0100 c.sp) v
    modify (λ d. record d { sp = u8 (d.sp + 255) })

  unfoldable pub pop : M bus ℕ
  pop = do modify (λ d. record d { sp = u8 (d.sp + 1) }); c ← get_cpu; read (bit_or 0x0100 c.sp)

  unfoldable pub push16 : ℕ → M bus (Unit {0})
  unfolding push
  push16 v = do push (u8 (v / 256)); push (u8 v)

  unfoldable pub pop16 : M bus ℕ
  unfolding pop
  pop16 = do lo ← pop; hi ← pop; pure (bit_or (hi * 256) lo)

  -- A read-modify-write instruction writes the old byte back first.
  unfoldable pub read_rmw_operand : ℕ → M bus ℕ
  read_rmw_operand a = do v ← read a; write a v; pure v

  unfoldable pub read16 : ℕ → M bus ℕ
  read16 a = do lo ← read a; hi ← read (u16 (a + 1)); pure (bit_or (hi * 256) lo)

  unfoldable pub read16_zp : ℕ → M bus ℕ
  read16_zp ptr = do
    lo ← read (bit_and ptr 0xff)
    hi ← read (bit_and (u16 (ptr + 1)) 0xff)
    pure (bit_or (hi * 256) lo)

  unfoldable pub reset : M bus (Unit {0})
  unfolding read16
  reset = do target ← read16 0xfffc; modify (λ d. record d { pc = target })

  -- What `nmi` and a taken `irq` have in common.
  unfoldable pub interrupt : ℕ → M bus (Unit {0})
  unfolding push push16 read16
  interrupt vector = do
    c ← get_cpu
    push16 c.pc
    push (bit_or (bit_and c.p (not8 flag_b)) flag_u)
    modify (λ d. record d { p = bit_or d.p flag_i })
    target ← read16 vector
    modify (λ d. record d { pc = target })

  unfoldable pub nmi : M bus (Unit {0})
  unfolding interrupt
  nmi = interrupt 0xfffa

  unfoldable pub irq : M bus (Unit {0})
  unfolding interrupt flag
  irq = do c ← get_cpu; if flag flag_i c then pure tt else interrupt 0xfffe

-- The operations of the monad, to be unfolded together.
unfoldable pub monad : Unit {0}
unfolding pure fail ◌>>=◌ get_cpu modify read write unwrap
monad = tt
