-- ===== src/Oracle6502/Running.antt =====
-- crates/oracle_6502/src/lib.rs: `execute` keeps the machine well formed and does not panic, for
-- each mnemonic with a mode that it is decoded with.
use nes_to_sms.Base.{ℕ, ◌^◌, ◌<◌, ◌≡◌, ◌⊎◌, arith, Bool, true, false, bit_and-lt, Option}
use nes_to_sms.Cpu6502.Isa.{AddrMode, Operand, Mnemonic}
use nes_to_sms.Oracle6502.Cpu.{Cpu, flag_c, set_flag, do_cmp, shift_left, shift_right, rotate_left}
use nes_to_sms.Oracle6502.Machine.{Bus}
use nes_to_sms.Oracle6502.Execute.{carry_left, carry_right, increment, decrement, execute}
use nes_to_sms.Oracle6502.Status.{pulled_status-IsStatus}
use nes_to_sms.Oracle6502.Registers.{
  IsCpu, set_flag-IsCpu, set_nz-IsCpu, with_a-IsCpu, with_x-IsCpu, with_y-IsCpu, with_sp-IsCpu,
  with_p-IsCpu, do_adc-IsCpu, do_sbc-IsCpu, do_cmp-IsCpu, and_acc-IsCpu, or_acc-IsCpu,
  xor_acc-IsCpu, branch-IsCpu, rotate_left-lt, rotate_right-lt,
}
use nes_to_sms.Oracle6502.Hoare.{ByteBus, Keeps, Any, bind-Keeps, get_cpu-Keeps, modify-Keeps}
use nes_to_sms.Oracle6502.Safety.{push-Keeps, pop-Keeps}
use nes_to_sms.Oracle6502.Families.{
  KeepsCpu, GivesByte, is_shiftable, carry-IsCpu, pushed_status-lt, load-Keeps, operate-Keeps,
  store-Keeps, bit_test-Keeps, do_asl_mem-Keeps, do_lsr_mem-Keeps, do_rol_mem-Keeps,
  do_ror_mem-Keeps, shift-Keeps, step_mem-Keeps, jump-Keeps, call-Keeps, return-Keeps,
  return_from_interrupt-Keeps, break-Keeps, read_and_discard-Keeps, modify_then-Keeps,
}
use nes_to_sms.Oracle6502.Execution.{has_address, EaFits, OperandFits}

-- The mnemonic is executed, and the mode gives it the address that it needs.
abbrev pub runs : Mnemonic → AddrMode → Bool
runs Mnemonic.sta mode = has_address mode
runs Mnemonic.stx mode = has_address mode
runs Mnemonic.sty mode = has_address mode
runs Mnemonic.bit mode = has_address mode
runs Mnemonic.inc mode = has_address mode
runs Mnemonic.dec mode = has_address mode
runs Mnemonic.jmp mode = has_address mode
runs Mnemonic.jsr mode = has_address mode
runs Mnemonic.sax mode = has_address mode
runs Mnemonic.dcp mode = has_address mode
runs Mnemonic.isc mode = has_address mode
runs Mnemonic.slo mode = has_address mode
runs Mnemonic.rla mode = has_address mode
runs Mnemonic.sre mode = has_address mode
runs Mnemonic.rra mode = has_address mode
runs Mnemonic.asl mode = is_shiftable mode
runs Mnemonic.lsr mode = is_shiftable mode
runs Mnemonic.rol mode = is_shiftable mode
runs Mnemonic.ror mode = is_shiftable mode
runs Mnemonic.xaa mode = false
runs Mnemonic.ahx mode = false
runs Mnemonic.tas mode = false
runs Mnemonic.las mode = false
runs Mnemonic.shx mode = false
runs Mnemonic.shy mode = false
runs Mnemonic.ane mode = false
runs Mnemonic.jam mode = false
runs _ mode = true

-- Registers loaded from, stored and combined with bytes.
put_ax-IsCpu : (v : ℕ) (c : Cpu) → v < 256 → IsCpu c → IsCpu (record c { a = v; x = v })
put_ax-IsCpu v c hv h = with_x-IsCpu v _ hv (with_a-IsCpu v c hv h)

shift_left-GivesByte : GivesByte (λ b. shift_left)
shift_left-GivesByte b v h = omega arith

shift_right-GivesByte : GivesByte (λ b. shift_right)
shift_right-GivesByte b v h = omega arith

rotate_left-GivesByte : GivesByte rotate_left
rotate_left-GivesByte b v h = rotate_left-lt b v

increment-GivesByte : GivesByte (λ b. increment)
increment-GivesByte b v h = omega arith

decrement-GivesByte : GivesByte (λ b. decrement)
decrement-GivesByte b v h = omega arith

cmp-KeepsCpu : (reg : Cpu → ℕ) → KeepsCpu (λ v c. do_cmp (reg c) v c)
cmp-KeepsCpu reg v c hv h = do_cmp-IsCpu (reg c) v c h

carry_left-KeepsCpu : KeepsCpu (λ v. set_flag flag_c (carry_left v))
carry_left-KeepsCpu v c hv h = carry-IsCpu (carry_left v) c h

carry_right-KeepsCpu : KeepsCpu (λ v. set_flag flag_c (carry_right v))
carry_right-KeepsCpu v c hv h = carry-IsCpu (carry_right v) c h

flag-IsCpu :
    (k : ℕ) (v : Bool) (c : Cpu) → (k < 4) ⊎ (k ≡ 6) → IsCpu c → IsCpu (set_flag (2 ^ k) v c)
flag-IsCpu k v c hk h = set_flag-IsCpu k v c (omega arith) (omega arith) (omega arith) h

module _ {bus : Bus} {laws : ByteBus bus} where
  pub execute-Keeps :
      (mn : Mnemonic) (mode : AddrMode) (o : Operand) (ea : Option ℕ)
      → runs mn mode ≡ true
      → OperandFits mode o
      → EaFits mode ea
      → Keeps laws Any (execute mn mode o ea)
  unfolding execute
  execute-Keeps Mnemonic.lda mode o ea t f h = load-Keeps _ mode o ea with_a-IsCpu f
  execute-Keeps Mnemonic.ldx mode o ea t f h = load-Keeps _ mode o ea with_x-IsCpu f
  execute-Keeps Mnemonic.ldy mode o ea t f h = load-Keeps _ mode o ea with_y-IsCpu f
  execute-Keeps Mnemonic.sta mode o ea t f h = store-Keeps _ mode ea (λ c hc. hc.a_byte) t h
  execute-Keeps Mnemonic.stx mode o ea t f h = store-Keeps _ mode ea (λ c hc. hc.x_byte) t h
  execute-Keeps Mnemonic.sty mode o ea t f h = store-Keeps _ mode ea (λ c hc. hc.y_byte) t h
  execute-Keeps Mnemonic.tax mode o ea t f h =
      modify-Keeps λ c hc. set_nz-IsCpu _ _ (with_x-IsCpu _ c hc.a_byte hc)
  execute-Keeps Mnemonic.tay mode o ea t f h =
      modify-Keeps λ c hc. set_nz-IsCpu _ _ (with_y-IsCpu _ c hc.a_byte hc)
  execute-Keeps Mnemonic.txa mode o ea t f h =
      modify-Keeps λ c hc. set_nz-IsCpu _ _ (with_a-IsCpu _ c hc.x_byte hc)
  execute-Keeps Mnemonic.tya mode o ea t f h =
      modify-Keeps λ c hc. set_nz-IsCpu _ _ (with_a-IsCpu _ c hc.y_byte hc)
  execute-Keeps Mnemonic.tsx mode o ea t f h =
      modify-Keeps λ c hc. set_nz-IsCpu _ _ (with_x-IsCpu _ c hc.sp_byte hc)
  execute-Keeps Mnemonic.txs mode o ea t f h = modify-Keeps λ c hc. with_sp-IsCpu _ c hc.x_byte hc
  execute-Keeps Mnemonic.pha mode o ea t f h =
      bind-Keeps get_cpu-Keeps λ c hc. push-Keeps c.a hc.a_byte
  execute-Keeps Mnemonic.php mode o ea t f h =
      bind-Keeps get_cpu-Keeps λ c hc. push-Keeps _ (pushed_status-lt c.p hc.status.0)
  execute-Keeps Mnemonic.pla mode o ea t f h =
      bind-Keeps pop-Keeps λ v hv. modify-Keeps λ c hc. set_nz-IsCpu v _ (with_a-IsCpu v c hv hc)
  execute-Keeps Mnemonic.plp mode o ea t f h =
      bind-Keeps pop-Keeps
        λ v hv. modify-Keeps λ c hc. with_p-IsCpu _ c (pulled_status-IsStatus v hv) hc
  execute-Keeps Mnemonic.and mode o ea t f h = operate-Keeps _ mode o ea and_acc-IsCpu f
  execute-Keeps Mnemonic.ora mode o ea t f h = operate-Keeps _ mode o ea or_acc-IsCpu f
  execute-Keeps Mnemonic.eor mode o ea t f h = operate-Keeps _ mode o ea xor_acc-IsCpu f
  execute-Keeps Mnemonic.bit mode o ea t f h = bit_test-Keeps mode ea t h
  execute-Keeps Mnemonic.adc mode o ea t f h = operate-Keeps _ mode o ea do_adc-IsCpu f
  execute-Keeps Mnemonic.sbc mode o ea t f h = operate-Keeps _ mode o ea do_sbc-IsCpu f
  execute-Keeps Mnemonic.cmp mode o ea t f h = operate-Keeps _ mode o ea (cmp-KeepsCpu (λ c. c.a)) f
  execute-Keeps Mnemonic.cpx mode o ea t f h = operate-Keeps _ mode o ea (cmp-KeepsCpu (λ c. c.x)) f
  execute-Keeps Mnemonic.cpy mode o ea t f h = operate-Keeps _ mode o ea (cmp-KeepsCpu (λ c. c.y)) f
  execute-Keeps Mnemonic.asl mode o ea t f h =
      shift-Keeps _ _ _ mode ea shift_left-GivesByte do_asl_mem-Keeps t h
  execute-Keeps Mnemonic.lsr mode o ea t f h =
      shift-Keeps _ _ _ mode ea shift_right-GivesByte do_lsr_mem-Keeps t h
  execute-Keeps Mnemonic.rol mode o ea t f h =
      shift-Keeps _ _ _ mode ea rotate_left-GivesByte do_rol_mem-Keeps t h
  execute-Keeps Mnemonic.ror mode o ea t f h =
      shift-Keeps _ _ _ mode ea rotate_right-lt do_ror_mem-Keeps t h
  execute-Keeps Mnemonic.inc mode o ea t f h = step_mem-Keeps _ mode ea (λ v. omega arith) t h
  execute-Keeps Mnemonic.inx mode o ea t f h =
      modify-Keeps λ c hc. set_nz-IsCpu _ _ (with_x-IsCpu _ c (omega arith) hc)
  execute-Keeps Mnemonic.iny mode o ea t f h =
      modify-Keeps λ c hc. set_nz-IsCpu _ _ (with_y-IsCpu _ c (omega arith) hc)
  execute-Keeps Mnemonic.dec mode o ea t f h = step_mem-Keeps _ mode ea (λ v. omega arith) t h
  execute-Keeps Mnemonic.dex mode o ea t f h =
      modify-Keeps λ c hc. set_nz-IsCpu _ _ (with_x-IsCpu _ c (omega arith) hc)
  execute-Keeps Mnemonic.dey mode o ea t f h =
      modify-Keeps λ c hc. set_nz-IsCpu _ _ (with_y-IsCpu _ c (omega arith) hc)
  execute-Keeps Mnemonic.bcc mode o ea t f h = modify-Keeps λ c hc. branch-IsCpu o _ c hc
  execute-Keeps Mnemonic.bcs mode o ea t f h = modify-Keeps λ c hc. branch-IsCpu o _ c hc
  execute-Keeps Mnemonic.beq mode o ea t f h = modify-Keeps λ c hc. branch-IsCpu o _ c hc
  execute-Keeps Mnemonic.bne mode o ea t f h = modify-Keeps λ c hc. branch-IsCpu o _ c hc
  execute-Keeps Mnemonic.bmi mode o ea t f h = modify-Keeps λ c hc. branch-IsCpu o _ c hc
  execute-Keeps Mnemonic.bpl mode o ea t f h = modify-Keeps λ c hc. branch-IsCpu o _ c hc
  execute-Keeps Mnemonic.bvc mode o ea t f h = modify-Keeps λ c hc. branch-IsCpu o _ c hc
  execute-Keeps Mnemonic.bvs mode o ea t f h = modify-Keeps λ c hc. branch-IsCpu o _ c hc
  execute-Keeps Mnemonic.jmp mode o ea t f h = jump-Keeps mode ea t h
  execute-Keeps Mnemonic.jsr mode o ea t f h = call-Keeps mode ea t h
  execute-Keeps Mnemonic.rts mode o ea t f h = return-Keeps
  execute-Keeps Mnemonic.rti mode o ea t f h = return_from_interrupt-Keeps
  execute-Keeps Mnemonic.clc mode o ea t f h =
      modify-Keeps λ c hc. flag-IsCpu 0 _ c (omega arith) hc
  execute-Keeps Mnemonic.sec mode o ea t f h =
      modify-Keeps λ c hc. flag-IsCpu 0 _ c (omega arith) hc
  execute-Keeps Mnemonic.cli mode o ea t f h =
      modify-Keeps λ c hc. flag-IsCpu 2 _ c (omega arith) hc
  execute-Keeps Mnemonic.sei mode o ea t f h =
      modify-Keeps λ c hc. flag-IsCpu 2 _ c (omega arith) hc
  execute-Keeps Mnemonic.clv mode o ea t f h =
      modify-Keeps λ c hc. flag-IsCpu 6 _ c (omega arith) hc
  execute-Keeps Mnemonic.cld mode o ea t f h =
      modify-Keeps λ c hc. flag-IsCpu 3 _ c (omega arith) hc
  execute-Keeps Mnemonic.sed mode o ea t f h =
      modify-Keeps λ c hc. flag-IsCpu 3 _ c (omega arith) hc
  execute-Keeps Mnemonic.nop mode o ea t f h = read_and_discard-Keeps ea
  execute-Keeps Mnemonic.brk mode o ea t f h = break-Keeps
  execute-Keeps Mnemonic.lax mode o ea t f h = load-Keeps _ mode o ea put_ax-IsCpu f
  execute-Keeps Mnemonic.sax mode o ea t f h =
      store-Keeps _ mode ea (λ c hc. bit_and-lt 8 c.a c.x hc.a_byte) t h
  execute-Keeps Mnemonic.dcp mode o ea t f h =
      modify_then-Keeps _ _ _ mode ea (λ v c hv hc. hc) decrement-GivesByte
        (cmp-KeepsCpu (λ c. c.a)) t h
  execute-Keeps Mnemonic.isc mode o ea t f h =
      modify_then-Keeps _ _ _ mode ea (λ v c hv hc. hc) increment-GivesByte do_sbc-IsCpu t h
  execute-Keeps Mnemonic.slo mode o ea t f h =
      modify_then-Keeps _ _ _ mode ea carry_left-KeepsCpu shift_left-GivesByte or_acc-IsCpu t h
  execute-Keeps Mnemonic.rla mode o ea t f h =
      modify_then-Keeps _ _ _ mode ea carry_left-KeepsCpu rotate_left-GivesByte and_acc-IsCpu t h
  execute-Keeps Mnemonic.sre mode o ea t f h =
      modify_then-Keeps _ _ _ mode ea carry_right-KeepsCpu shift_right-GivesByte xor_acc-IsCpu t h
  execute-Keeps Mnemonic.rra mode o ea t f h =
      modify_then-Keeps _ _ _ mode ea carry_right-KeepsCpu rotate_right-lt do_adc-IsCpu t h
  execute-Keeps Mnemonic.xaa mode o ea t f h = cc
  execute-Keeps Mnemonic.ahx mode o ea t f h = cc
  execute-Keeps Mnemonic.tas mode o ea t f h = cc
  execute-Keeps Mnemonic.las mode o ea t f h = cc
  execute-Keeps Mnemonic.shx mode o ea t f h = cc
  execute-Keeps Mnemonic.shy mode o ea t f h = cc
  execute-Keeps Mnemonic.ane mode o ea t f h = cc
  execute-Keeps Mnemonic.jam mode o ea t f h = cc
