-- ===== src/Oracle6502/Execute.antt =====
-- crates/oracle_6502/src/lib.rs: `execute`, one helper for each family of match arms.
use nes_to_sms.Base.{
  ℕ, ◌+◌, ◌==◌, u8, u16, not8, has_bits, bit_and, bit_or, bit_xor, Bool, true, false, not, Option,
  none, some,
}
use nes_to_sms.Cpu6502.Isa.{AddrMode, accumulator, Operand, Mnemonic}
use nes_to_sms.Oracle6502.Cpu.{
  Cpu, flag, flag_c, flag_z, flag_i, flag_d, flag_b, flag_u, flag_v, flag_n, set_flag, set_nz,
  do_adc, do_sbc, do_cmp, branch, shift_left, shift_right, rotate_left, rotate_right,
}
use nes_to_sms.Oracle6502.Machine.{
  Bus, M, panic, pure, fail, ◌>>=◌, ◌>>◌, get_cpu, modify, read, write, unwrap, push, pop, push16,
  pop16, read_rmw_operand, read16,
}
use nes_to_sms.Oracle6502.Address.{read_operand}

-- `self.p = (v & !FLAG_B) | FLAG_U` of PLP and RTI.
unfoldable pub pulled_status : ℕ → ℕ
pulled_status v = bit_or (bit_and v (not8 flag_b)) flag_u

-- `self.p | FLAG_B | FLAG_U` of PHP and BRK.
unfoldable pub pushed_status : ℕ → ℕ
pushed_status p = bit_or (bit_or p flag_b) flag_u

-- The carry that a left or a right shift moves out of a byte.
abbrev pub carry_left : ℕ → Bool
carry_left v = has_bits v 0x80

abbrev pub carry_right : ℕ → Bool
carry_right v = has_bits v 0x01

module _ {bus : Bus} where
  -- LDA, LDX, LDY, LAX: the value goes to the registers that `put` writes, then to N and Z.
  unfoldable pub load : (ℕ → Cpu → Cpu) → AddrMode → Operand → Option ℕ → M bus (Unit {0})
  load put mode operand ea = do v ← read_operand mode operand ea; modify (λ c. set_nz v (put v c))

  -- STA, STX, STY, SAX.
  unfoldable pub store : (Cpu → ℕ) → Option ℕ → M bus (Unit {0})
  store value ea = do a ← unwrap ea; c ← get_cpu; write a (value c)

  -- ADC, SBC, CMP, CPX, CPY, AND, ORA, EOR: an operand and a register operation.
  unfoldable pub operate : (ℕ → Cpu → Cpu) → AddrMode → Operand → Option ℕ → M bus (Unit {0})
  operate f mode operand ea = do v ← read_operand mode operand ea; modify (f v)

  unfoldable pub bit_test : Option ℕ → M bus (Unit {0})
  bit_test ea = do
    a ← unwrap ea
    m ← read a
    modify (λ c.
        set_flag flag_z (bit_and c.a m == 0)
          (set_flag flag_v (has_bits m 0x40) (set_flag flag_n (has_bits m 0x80) c)))

  unfoldable pub do_asl_mem : ℕ → M bus (Unit {0})
  do_asl_mem ea = do
    v ← read_rmw_operand ea
    modify (set_flag flag_c (carry_left v))
    write ea (shift_left v)
    modify (set_nz (shift_left v))

  unfoldable pub do_lsr_mem : ℕ → M bus (Unit {0})
  do_lsr_mem ea = do
    v ← read_rmw_operand ea
    modify (set_flag flag_c (carry_right v))
    write ea (shift_right v)
    modify (set_nz (shift_right v))

  unfoldable pub do_rol_mem : ℕ → M bus (Unit {0})
  do_rol_mem ea = do
    v ← read_rmw_operand ea
    c ← get_cpu
    modify (set_flag flag_c (carry_left v))
    write ea (rotate_left (flag flag_c c) v)
    modify (set_nz (rotate_left (flag flag_c c) v))

  unfoldable pub do_ror_mem : ℕ → M bus (Unit {0})
  do_ror_mem ea = do
    v ← read_rmw_operand ea
    c ← get_cpu
    modify (set_flag flag_c (carry_right v))
    write ea (rotate_right (flag flag_c c) v)
    modify (set_nz (rotate_right (flag flag_c c) v))

  -- The accumulator forms of ASL, LSR, ROL and ROR.
  unfoldable pub shift_acc : (ℕ → Bool) → (Bool → ℕ → ℕ) → M bus (Unit {0})
  shift_acc carry shifted = modify λ c.
      let r = shifted (flag flag_c c) c.a in
      set_nz r (record (set_flag flag_c (carry c.a) c) { a = r })

  unfoldable pub shift :
      (ℕ → Bool) → (Bool → ℕ → ℕ) → (ℕ → M bus (Unit {0})) → AddrMode → Option ℕ → M bus (Unit {0})
  unfolding shift_acc
  shift carry shifted in_memory accumulator ea = shift_acc carry shifted
  shift carry shifted in_memory _ ea = unwrap ea >>= in_memory

  -- INC and DEC; `f` is the wrapping step.
  unfoldable pub step_mem : (ℕ → ℕ) → Option ℕ → M bus (Unit {0})
  step_mem f ea = do a ← unwrap ea; v ← read_rmw_operand a; write a (f v); modify (set_nz (f v))

  unfoldable pub jump : Option ℕ → M bus (Unit {0})
  jump ea = do a ← unwrap ea; modify (λ c. record c { pc = a })

  -- JSR pushes the address of its own last byte.
  unfoldable pub call : Option ℕ → M bus (Unit {0})
  call ea = do
    c ← get_cpu
    push16 (u16 (c.pc + 65535))
    a ← unwrap ea
    modify (λ d. record d { pc = a })

  unfoldable pub return : M bus (Unit {0})
  return = do ret ← pop16; modify (λ d. record d { pc = u16 (ret + 1) })

  unfoldable pub return_from_interrupt : M bus (Unit {0})
  return_from_interrupt = do
    p ← pop
    modify (λ d. record d { p = pulled_status p })
    target ← pop16
    modify (λ d. record d { pc = target })

  unfoldable pub break : M bus (Unit {0})
  break = do
    c ← get_cpu
    push16 c.pc
    d ← get_cpu
    push (pushed_status d.p)
    modify (λ e. record e { p = bit_or e.p flag_i })
    target ← read16 0xfffe
    modify (λ e. record e { pc = target })

  unfoldable pub read_and_discard : Option ℕ → M bus (Unit {0})
  read_and_discard none = pure tt
  read_and_discard (some a) = do v ← read a; pure tt

  -- DCP, ISC, SLO, RLA, SRE, RRA: a read-modify-write by `f`, then a register operation on the
  -- new byte; `carry` is the flag update between the two writes.
  unfoldable pub modify_then :
      (ℕ → Cpu → Cpu) → (Bool → ℕ → ℕ) → (ℕ → Cpu → Cpu) → Option ℕ → M bus (Unit {0})
  modify_then carry f g ea = do
    a ← unwrap ea
    v ← read_rmw_operand a
    c ← get_cpu
    modify (carry v)
    write a (f (flag flag_c c) v)
    modify (g (f (flag flag_c c) v))

-- Register operations of the arms, on a byte.
unfoldable pub and_acc : ℕ → Cpu → Cpu
and_acc v c = set_nz (bit_and c.a v) (record c { a = bit_and c.a v })

unfoldable pub or_acc : ℕ → Cpu → Cpu
or_acc v c = set_nz (bit_or c.a v) (record c { a = bit_or c.a v })

unfoldable pub xor_acc : ℕ → Cpu → Cpu
xor_acc v c = set_nz (bit_xor c.a v) (record c { a = bit_xor c.a v })

abbrev pub increment : ℕ → ℕ
increment v = u8 (v + 1)

abbrev pub decrement : ℕ → ℕ
decrement v = u8 (v + 255)

abbrev pub keep : ℕ → Cpu → Cpu
keep v c = c

module _ {bus : Bus} where
  unfoldable pub execute : Mnemonic → AddrMode → Operand → Option ℕ → M bus (Unit {0})
  unfolding load store operate bit_test shift step_mem jump call return return_from_interrupt break
      read_and_discard modify_then and_acc or_acc xor_acc branch do_asl_mem do_lsr_mem do_rol_mem
      do_ror_mem flag pulled_status pushed_status
  execute Mnemonic.lda mode operand ea = load (λ v c. record c { a = v }) mode operand ea
  execute Mnemonic.ldx mode operand ea = load (λ v c. record c { x = v }) mode operand ea
  execute Mnemonic.ldy mode operand ea = load (λ v c. record c { y = v }) mode operand ea
  execute Mnemonic.sta mode operand ea = store (λ c. c.a) ea
  execute Mnemonic.stx mode operand ea = store (λ c. c.x) ea
  execute Mnemonic.sty mode operand ea = store (λ c. c.y) ea
  execute Mnemonic.tax mode operand ea = modify (λ c. set_nz c.a (record c { x = c.a }))
  execute Mnemonic.tay mode operand ea = modify (λ c. set_nz c.a (record c { y = c.a }))
  execute Mnemonic.txa mode operand ea = modify (λ c. set_nz c.x (record c { a = c.x }))
  execute Mnemonic.tya mode operand ea = modify (λ c. set_nz c.y (record c { a = c.y }))
  execute Mnemonic.tsx mode operand ea = modify (λ c. set_nz c.sp (record c { x = c.sp }))
  execute Mnemonic.txs mode operand ea = modify (λ c. record c { sp = c.x })
  execute Mnemonic.pha mode operand ea = get_cpu >>= λ c. push c.a
  execute Mnemonic.php mode operand ea = get_cpu >>= λ c. push (pushed_status c.p)
  execute Mnemonic.pla mode operand ea = pop >>= λ v. modify (λ c. set_nz v (record c { a = v }))
  execute Mnemonic.plp mode operand ea = pop >>= λ v. modify (λ c. record c { p = pulled_status v })
  execute Mnemonic.and mode operand ea = operate and_acc mode operand ea
  execute Mnemonic.ora mode operand ea = operate or_acc mode operand ea
  execute Mnemonic.eor mode operand ea = operate xor_acc mode operand ea
  execute Mnemonic.bit mode operand ea = bit_test ea
  execute Mnemonic.adc mode operand ea = operate do_adc mode operand ea
  execute Mnemonic.sbc mode operand ea = operate do_sbc mode operand ea
  execute Mnemonic.cmp mode operand ea = operate (λ v c. do_cmp c.a v c) mode operand ea
  execute Mnemonic.cpx mode operand ea = operate (λ v c. do_cmp c.x v c) mode operand ea
  execute Mnemonic.cpy mode operand ea = operate (λ v c. do_cmp c.y v c) mode operand ea
  execute Mnemonic.asl mode operand ea = shift carry_left (λ b. shift_left) do_asl_mem mode ea
  execute Mnemonic.lsr mode operand ea = shift carry_right (λ b. shift_right) do_lsr_mem mode ea
  execute Mnemonic.rol mode operand ea = shift carry_left rotate_left do_rol_mem mode ea
  execute Mnemonic.ror mode operand ea = shift carry_right rotate_right do_ror_mem mode ea
  execute Mnemonic.inc mode operand ea = step_mem increment ea
  execute Mnemonic.inx mode operand ea =
      modify (λ c. set_nz (increment c.x) (record c { x = increment c.x }))
  execute Mnemonic.iny mode operand ea =
      modify (λ c. set_nz (increment c.y) (record c { y = increment c.y }))
  execute Mnemonic.dec mode operand ea = step_mem decrement ea
  execute Mnemonic.dex mode operand ea =
      modify (λ c. set_nz (decrement c.x) (record c { x = decrement c.x }))
  execute Mnemonic.dey mode operand ea =
      modify (λ c. set_nz (decrement c.y) (record c { y = decrement c.y }))
  execute Mnemonic.bcc mode operand ea = modify (λ c. branch operand (not (flag flag_c c)) c)
  execute Mnemonic.bcs mode operand ea = modify (λ c. branch operand (flag flag_c c) c)
  execute Mnemonic.beq mode operand ea = modify (λ c. branch operand (flag flag_z c) c)
  execute Mnemonic.bne mode operand ea = modify (λ c. branch operand (not (flag flag_z c)) c)
  execute Mnemonic.bmi mode operand ea = modify (λ c. branch operand (flag flag_n c) c)
  execute Mnemonic.bpl mode operand ea = modify (λ c. branch operand (not (flag flag_n c)) c)
  execute Mnemonic.bvc mode operand ea = modify (λ c. branch operand (not (flag flag_v c)) c)
  execute Mnemonic.bvs mode operand ea = modify (λ c. branch operand (flag flag_v c) c)
  execute Mnemonic.jmp mode operand ea = jump ea
  execute Mnemonic.jsr mode operand ea = call ea
  execute Mnemonic.rts mode operand ea = return
  execute Mnemonic.rti mode operand ea = return_from_interrupt
  execute Mnemonic.clc mode operand ea = modify (set_flag flag_c false)
  execute Mnemonic.sec mode operand ea = modify (set_flag flag_c true)
  execute Mnemonic.cli mode operand ea = modify (set_flag flag_i false)
  execute Mnemonic.sei mode operand ea = modify (set_flag flag_i true)
  execute Mnemonic.clv mode operand ea = modify (set_flag flag_v false)
  execute Mnemonic.cld mode operand ea = modify (set_flag flag_d false)
  execute Mnemonic.sed mode operand ea = modify (set_flag flag_d true)
  execute Mnemonic.nop mode operand ea = read_and_discard ea
  execute Mnemonic.brk mode operand ea = break
  execute Mnemonic.lax mode operand ea = load (λ v c. record c { a = v; x = v }) mode operand ea
  execute Mnemonic.sax mode operand ea = store (λ c. bit_and c.a c.x) ea
  execute Mnemonic.dcp mode operand ea =
      modify_then keep (λ b. decrement) (λ v c. do_cmp c.a v c) ea
  execute Mnemonic.isc mode operand ea = modify_then keep (λ b. increment) do_sbc ea
  execute Mnemonic.slo mode operand ea =
      modify_then (λ v. set_flag flag_c (carry_left v)) (λ b. shift_left) or_acc ea
  execute Mnemonic.rla mode operand ea =
      modify_then (λ v. set_flag flag_c (carry_left v)) rotate_left and_acc ea
  execute Mnemonic.sre mode operand ea =
      modify_then (λ v. set_flag flag_c (carry_right v)) (λ b. shift_right) xor_acc ea
  execute Mnemonic.rra mode operand ea =
      modify_then (λ v. set_flag flag_c (carry_right v)) rotate_right do_adc ea
  execute _ mode operand ea = fail panic
