-- ===== src/Oracle6502/Families.antt =====
-- crates/oracle_6502/src/lib.rs: each family of arms of `execute` keeps the machine well formed;
-- where an arm unwraps the effective address, the mode has one.
use nes_to_sms.Base.{ℕ, ◌<◌, ◌≡◌, arith, Bool, true, bit_or-lt, Option, none, some}
use nes_to_sms.Cpu6502.Isa.{AddrMode, accumulator, Operand}
use nes_to_sms.Oracle6502.Cpu.{Cpu, flag, flag_c, set_flag, set_nz}
use nes_to_sms.Oracle6502.Machine.{Bus, M, unwrap, ◌>>=◌, modify, write}
use nes_to_sms.Oracle6502.Execute.{
  load, store, operate, bit_test, do_asl_mem, do_lsr_mem, do_rol_mem, do_ror_mem, shift, step_mem,
  jump, call, return, return_from_interrupt, break, read_and_discard, modify_then, pushed_status,
}
use nes_to_sms.Oracle6502.Status.{pulled_status-IsStatus}
use nes_to_sms.Oracle6502.Registers.{
  IsCpu, set_flag-IsCpu, set_nz-IsCpu, with_a-IsCpu, with_pc-IsCpu, with_p-IsCpu, rotate_left-lt,
  rotate_right-lt,
}
use nes_to_sms.Oracle6502.Hoare.{
  ByteBus, Keeps, Any, pure-Keeps, bind-Keeps, then-Keeps, get_cpu-Keeps, modify-Keeps, read-Keeps,
  write-Keeps, unwrap-Keeps,
}
use nes_to_sms.Oracle6502.Safety.{
  disable_irq-IsCpu, push-Keeps, pop-Keeps, push16-Keeps, pop16-Keeps, read_rmw_operand-Keeps,
  read16-Keeps, jump_through-Keeps,
}
use nes_to_sms.Oracle6502.Execution.{has_address, EaFits, OperandFits, read_operand-Keeps}

-- A family of register operations, one for each byte operand, that keep the register file.
abbrev pub KeepsCpu : (ℕ → Cpu → Cpu) → Type 0
KeepsCpu f = (v : ℕ) (c : Cpu) → v < 256 → IsCpu c → IsCpu (f v c)

abbrev pub GivesByte : (Bool → ℕ → ℕ) → Type 0
GivesByte f = (b : Bool) (v : ℕ) → v < 256 → f b v < 256

pub carry-IsCpu : (b : Bool) (c : Cpu) → IsCpu c → IsCpu (set_flag flag_c b c)
carry-IsCpu b c h = set_flag-IsCpu 0 b c (omega arith) (omega arith) (omega arith) h

-- The modes of the shifts: on the accumulator or on an address.
abbrev pub is_shiftable : AddrMode → Bool
is_shiftable accumulator = true
is_shiftable mode = has_address mode

pub pushed_status-lt : (p : ℕ) → p < 256 → pushed_status p < 256
unfolding pushed_status
pushed_status-lt p h = bit_or-lt 8 _ _ (bit_or-lt 8 p _ h (omega arith)) (omega arith)

module _ {bus : Bus} {laws : ByteBus bus} where
  pub load-Keeps :
      (put : ℕ → Cpu → Cpu) (mode : AddrMode) (o : Operand) (ea : Option ℕ)
      → KeepsCpu put
      → OperandFits mode o
      → Keeps laws Any (load put mode o ea)
  unfolding load
  load-Keeps put mode o ea k h =
      bind-Keeps (read_operand-Keeps mode o ea h)
        λ v hv. modify-Keeps λ c hc. set_nz-IsCpu v _ (k v c hv hc)

  pub operate-Keeps :
      (f : ℕ → Cpu → Cpu) (mode : AddrMode) (o : Operand) (ea : Option ℕ)
      → KeepsCpu f
      → OperandFits mode o
      → Keeps laws Any (operate f mode o ea)
  unfolding operate
  operate-Keeps f mode o ea k h =
      bind-Keeps (read_operand-Keeps mode o ea h) λ v hv. modify-Keeps λ c hc. k v c hv hc

  -- The address that an arm unwraps is there.
  pub unwrapped :
      {B : Type 0} {R : B → Type 0} (mode : AddrMode) (ea : Option ℕ) (f : ℕ → M bus B)
      → has_address mode ≡ true
      → EaFits mode ea
      → ((a : ℕ) → a < 65536 → Keeps laws R (f a))
      → Keeps laws R (unwrap ea >>= f)
  unwrapped mode none f t h k = cc
  unwrapped mode (some a) f t h k = bind-Keeps (unwrap-Keeps a h) k

  pub store-Keeps :
      (value : Cpu → ℕ) (mode : AddrMode) (ea : Option ℕ)
      → ((c : Cpu) → IsCpu c → value c < 256)
      → has_address mode ≡ true
      → EaFits mode ea
      → Keeps laws Any (store value ea)
  unfolding store
  store-Keeps value mode ea k t h =
      unwrapped mode ea _ t h
        λ a ha. bind-Keeps get_cpu-Keeps λ c hc. write-Keeps a (value c) (k c hc)

  pub bit_test-Keeps :
      (mode : AddrMode) (ea : Option ℕ)
      → has_address mode ≡ true
      → EaFits mode ea
      → Keeps laws Any (bit_test ea)
  unfolding bit_test
  bit_test-Keeps mode ea t h = unwrapped mode ea _ t h λ a ha. bind-Keeps (read-Keeps a) λ m hm.
      modify-Keeps λ c hc. set_flag-IsCpu 1 _ _ (omega arith) (omega arith) (omega arith) (
        set_flag-IsCpu 6 _ _ (omega arith) (omega arith) (omega arith)
          (set_flag-IsCpu 7 _ c (omega arith) (omega arith) (omega arith) hc))

  -- The writes that end a read-modify-write of ASL, LSR, ROL and ROR.
  shifted-Keeps :
      (a r : ℕ) (b : Bool)
      → r < 256
      → Keeps laws Any (modify (set_flag flag_c b) >>= λ _. write a r >>= λ _. modify (set_nz r))
  shifted-Keeps a r b hr =
      then-Keeps (modify-Keeps (carry-IsCpu b))
        (then-Keeps (write-Keeps a r hr) (modify-Keeps (set_nz-IsCpu r)))

  pub do_asl_mem-Keeps : (a : ℕ) → Keeps laws Any (do_asl_mem a)
  unfolding do_asl_mem
  do_asl_mem-Keeps a =
      bind-Keeps (read_rmw_operand-Keeps a) λ v hv. shifted-Keeps a _ _ (omega arith)

  pub do_lsr_mem-Keeps : (a : ℕ) → Keeps laws Any (do_lsr_mem a)
  unfolding do_lsr_mem
  do_lsr_mem-Keeps a =
      bind-Keeps (read_rmw_operand-Keeps a) λ v hv. shifted-Keeps a _ _ (omega arith)

  pub do_rol_mem-Keeps : (a : ℕ) → Keeps laws Any (do_rol_mem a)
  unfolding do_rol_mem
  do_rol_mem-Keeps a = bind-Keeps (read_rmw_operand-Keeps a) λ v hv.
      bind-Keeps get_cpu-Keeps λ c hc. shifted-Keeps a _ _ (rotate_left-lt (flag flag_c c) v)

  pub do_ror_mem-Keeps : (a : ℕ) → Keeps laws Any (do_ror_mem a)
  unfolding do_ror_mem
  do_ror_mem-Keeps a = bind-Keeps (read_rmw_operand-Keeps a) λ v hv.
      bind-Keeps get_cpu-Keeps λ c hc. shifted-Keeps a _ _ (rotate_right-lt (flag flag_c c) v hv)

  pub shift-Keeps :
      (carry : ℕ → Bool) (shifted : Bool → ℕ → ℕ) (in_memory : ℕ → M bus (Unit {0}))
      (mode : AddrMode) (ea : Option ℕ)
      → GivesByte shifted
      → ((a : ℕ) → Keeps laws Any (in_memory a))
      → is_shiftable mode ≡ true
      → EaFits mode ea
      → Keeps laws Any (shift carry shifted in_memory mode ea)
  unfolding shift
  shift-Keeps carry shifted in_memory accumulator ea g k t h = modify-Keeps λ c hc.
      let hr = g (flag flag_c c) c.a hc.a_byte in
      set_nz-IsCpu _ _ (with_a-IsCpu _ _ hr (carry-IsCpu (carry c.a) c hc))
  shift-Keeps carry shifted in_memory mode ea g k t h = unwrapped mode ea in_memory t h λ a ha. k a

  pub step_mem-Keeps :
      (f : ℕ → ℕ) (mode : AddrMode) (ea : Option ℕ)
      → ((v : ℕ) → f v < 256)
      → has_address mode ≡ true
      → EaFits mode ea
      → Keeps laws Any (step_mem f ea)
  unfolding step_mem
  step_mem-Keeps f mode ea k t h = unwrapped mode ea _ t h λ a ha.
      bind-Keeps (read_rmw_operand-Keeps a)
        λ v hv. then-Keeps (write-Keeps a (f v) (k v)) (modify-Keeps (set_nz-IsCpu (f v)))

  pub jump-Keeps :
      (mode : AddrMode) (ea : Option ℕ)
      → has_address mode ≡ true
      → EaFits mode ea
      → Keeps laws Any (jump ea)
  unfolding jump
  jump-Keeps mode ea t h =
      unwrapped mode ea _ t h λ a ha. modify-Keeps λ c hc. with_pc-IsCpu a c ha hc

  pub call-Keeps :
      (mode : AddrMode) (ea : Option ℕ)
      → has_address mode ≡ true
      → EaFits mode ea
      → Keeps laws Any (call ea)
  unfolding call
  call-Keeps mode ea t h = bind-Keeps get_cpu-Keeps λ c hc.
      then-Keeps (push16-Keeps _)
        (unwrapped mode ea _ t h λ a ha. modify-Keeps λ d hd. with_pc-IsCpu a d ha hd)

  pub return-Keeps : Keeps laws Any return
  unfolding return
  return-Keeps =
      bind-Keeps pop16-Keeps λ r hr. modify-Keeps λ d hd. with_pc-IsCpu _ d (omega arith) hd

  pub return_from_interrupt-Keeps : Keeps laws Any return_from_interrupt
  unfolding return_from_interrupt
  return_from_interrupt-Keeps = bind-Keeps pop-Keeps λ p hp.
      then-Keeps (modify-Keeps λ d hd. with_p-IsCpu _ d (pulled_status-IsStatus p hp) hd)
        (jump_through-Keeps pop16-Keeps)

  pub break-Keeps : Keeps laws Any break
  unfolding break
  break-Keeps = bind-Keeps get_cpu-Keeps λ c hc. then-Keeps (push16-Keeps c.pc) (
      bind-Keeps get_cpu-Keeps λ d hd.
        then-Keeps (push-Keeps _ (pushed_status-lt d.p hd.status.0))
          (then-Keeps (modify-Keeps disable_irq-IsCpu) (jump_through-Keeps (read16-Keeps _))))

  pub read_and_discard-Keeps : (ea : Option ℕ) → Keeps laws Any (read_and_discard ea)
  unfolding read_and_discard
  read_and_discard-Keeps none = pure-Keeps tt tt
  read_and_discard-Keeps (some a) = bind-Keeps (read-Keeps a) λ v hv. pure-Keeps tt tt

  pub modify_then-Keeps :
      (carry : ℕ → Cpu → Cpu) (f : Bool → ℕ → ℕ) (g : ℕ → Cpu → Cpu) (mode : AddrMode)
      (ea : Option ℕ)
      → KeepsCpu carry
      → GivesByte f
      → KeepsCpu g
      → has_address mode ≡ true
      → EaFits mode ea
      → Keeps laws Any (modify_then carry f g ea)
  unfolding modify_then
  modify_then-Keeps carry f g mode ea kc kf kg t h = unwrapped mode ea _ t h λ a ha.
      bind-Keeps (read_rmw_operand-Keeps a) λ v hv. bind-Keeps get_cpu-Keeps λ c hc.
        let r = kf (flag flag_c c) v hv in
        then-Keeps (modify-Keeps λ d hd. kc v d hv hd)
          (then-Keeps (write-Keeps a _ r) (modify-Keeps λ d hd. kg _ d r hd))
