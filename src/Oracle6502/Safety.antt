-- ===== src/Oracle6502/Safety.antt =====
-- crates/oracle_6502/src/lib.rs: every operation of the interpreter on the bus keeps the machine
-- well formed and does not panic.
use nes_to_sms.Base.{ℕ, ◌*◌, ◌<◌, arith, true, bit_or, bit_or-lt, bit_and-lt, Bool-cases, inl, inr}
use nes_to_sms.Oracle6502.Cpu.{Cpu, flag, flag_i, put_flag}
use nes_to_sms.Oracle6502.Machine.{
  Bus, M, ◌>>=◌, modify, push, pop, push16, pop16, read_rmw_operand, read16, read16_zp, reset,
  interrupt, nmi, irq,
}
use nes_to_sms.Oracle6502.Status.{IsStatus, put_flag-IsStatus}
use nes_to_sms.Oracle6502.Registers.{IsCpu, with_sp-IsCpu, with_pc-IsCpu, with_p-IsCpu}
use nes_to_sms.Oracle6502.Hoare.{
  ByteBus, Keeps, Any, IsByte, pure-Keeps, bind-Keeps, then-Keeps, get_cpu-Keeps, modify-Keeps,
  read-Keeps, write-Keeps,
}

abbrev pub IsWord : ℕ → Type 0
IsWord v = v < 65536

pub word-lt : (hi lo : ℕ) → hi < 256 → lo < 256 → bit_or (hi * 256) lo < 65536
word-lt hi lo hh hl = bit_or-lt 16 _ _ (omega arith) (omega arith)

pub irq_disabled-IsStatus : (p : ℕ) → IsStatus p → IsStatus (bit_or p flag_i)
unfolding put_flag
irq_disabled-IsStatus p h = put_flag-IsStatus 2 true p (omega arith) (omega arith) (omega arith) h

pub disable_irq-IsCpu : (c : Cpu) → IsCpu c → IsCpu (record c { p = bit_or c.p flag_i })
disable_irq-IsCpu c h = with_p-IsCpu _ c (irq_disabled-IsStatus c.p h.status) h

module _ {bus : Bus} {laws : ByteBus bus} where
  pub push-Keeps : (v : ℕ) → v < 256 → Keeps laws Any (push v)
  unfolding push
  push-Keeps v hv = bind-Keeps get_cpu-Keeps λ c hc.
      then-Keeps (write-Keeps _ v hv) (modify-Keeps λ d hd. with_sp-IsCpu _ d (omega arith) hd)

  pub pop-Keeps : Keeps laws IsByte pop
  unfolding pop
  pop-Keeps =
      then-Keeps (modify-Keeps λ d hd. with_sp-IsCpu _ d (omega arith) hd)
        (bind-Keeps get_cpu-Keeps λ c hc. read-Keeps _)

  pub push16-Keeps : (v : ℕ) → Keeps laws Any (push16 v)
  unfolding push16
  push16-Keeps v = then-Keeps (push-Keeps _ (omega arith)) (push-Keeps _ (omega arith))

  pub pop16-Keeps : Keeps laws IsWord pop16
  unfolding pop16
  pop16-Keeps =
      bind-Keeps pop-Keeps λ lo hl. bind-Keeps pop-Keeps λ hi hh. pure-Keeps _ (word-lt hi lo hh hl)

  pub read_rmw_operand-Keeps : (a : ℕ) → Keeps laws IsByte (read_rmw_operand a)
  unfolding read_rmw_operand
  read_rmw_operand-Keeps a =
      bind-Keeps (read-Keeps a) λ v hv. then-Keeps (write-Keeps a v hv) (pure-Keeps v hv)

  pub read16-Keeps : (a : ℕ) → Keeps laws IsWord (read16 a)
  unfolding read16
  read16-Keeps a =
      bind-Keeps (read-Keeps a)
        λ lo hl. bind-Keeps (read-Keeps _) λ hi hh. pure-Keeps _ (word-lt hi lo hh hl)

  pub read16_zp-Keeps : (a : ℕ) → Keeps laws IsWord (read16_zp a)
  unfolding read16_zp
  read16_zp-Keeps a =
      bind-Keeps (read-Keeps _)
        λ lo hl. bind-Keeps (read-Keeps _) λ hi hh. pure-Keeps _ (word-lt hi lo hh hl)

  -- `pc` set to a word that the memory gives.
  pub jump_through-Keeps :
      {m : M bus ℕ}
      → Keeps laws IsWord m
      → Keeps laws Any (m >>= λ t. modify (λ d. record d { pc = t }))
  jump_through-Keeps h = bind-Keeps h λ t ht. modify-Keeps λ d hd. with_pc-IsCpu t d ht hd

  pub reset-Keeps : Keeps laws Any reset
  unfolding reset
  reset-Keeps = jump_through-Keeps (read16-Keeps 0xfffc)

  pub interrupt-Keeps : (vector : ℕ) → Keeps laws Any (interrupt vector)
  unfolding interrupt
  interrupt-Keeps vector = bind-Keeps get_cpu-Keeps λ c hc. then-Keeps (push16-Keeps c.pc) (
      then-Keeps (push-Keeps _ (bit_or-lt 8 _ _ (bit_and-lt 8 c.p _ hc.status.0) (omega arith)))
        (then-Keeps (modify-Keeps disable_irq-IsCpu) (jump_through-Keeps (read16-Keeps vector))))

  nmi-Keeps : Keeps laws Any nmi
  unfolding nmi
  nmi-Keeps = interrupt-Keeps 0xfffa

  irq-Keeps : Keeps laws Any irq
  unfolding irq
  irq-Keeps = bind-Keeps get_cpu-Keeps λ c hc. elim (Bool-cases (flag flag_i c)) [
    | inl e ↦ rw e (pure-Keeps tt tt)
    | inr e ↦ rw e (interrupt-Keeps 0xfffe)
  ]
