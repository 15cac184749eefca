-- ===== src/Oracle6502/Address.antt =====
-- crates/oracle_6502/src/lib.rs: effective addresses and operand reads.
use nes_to_sms.Base.{ℕ, ◌+◌, ◌*◌, ◌==◌, u8, u16, bit_and, bit_or, Option, none, some, if◌then◌else◌}
use mathlib.Core.Option
use nes_to_sms.Cpu6502.Isa.{
  AddrMode, accumulator, immediate, zero_page, zero_page_x, zero_page_y, absolute, absolute_x,
  absolute_y, indirect, indirect_x, indirect_y, Operand, imm, addr,
}
use nes_to_sms.Oracle6502.Cpu.{Cpu}
use nes_to_sms.Oracle6502.Machine.{Bus, M, pure, ◌>>=◌, get_cpu, read, read16_zp}

abbrev pub immediate_value : Operand → ℕ
immediate_value (imm v) = v
immediate_value _ = 0

module _ {bus : Bus} where
  -- `let Operand::Addr(a) = operand else { return None }`.
  abbrev pub with_addr : Operand → (ℕ → M bus (Option ℕ)) → M bus (Option ℕ)
  with_addr (addr a) k = k a
  with_addr _ k = pure none

  -- The pointer of an indirect jump does not leave its page.
  unfoldable pub read_indirect : ℕ → M bus ℕ
  read_indirect ptr = do
    lo ← read ptr
    hi ← read (if bit_and ptr 0xff == 0xff then bit_and ptr 0xff00 else ptr + 1)
    pure (bit_or (hi * 256) lo)

  -- The address that a mode computes from the registers and the operand.
  unfoldable pub address_of : AddrMode → Cpu → ℕ → M bus (Option ℕ)
  unfolding read_indirect read16_zp
  address_of zero_page c a = pure (some (bit_and a 0x00ff))
  address_of zero_page_x c a = pure (some (u8 (u8 a + c.x)))
  address_of zero_page_y c a = pure (some (u8 (u8 a + c.y)))
  address_of absolute c a = pure (some a)
  address_of absolute_x c a = pure (some (u16 (a + c.x)))
  address_of absolute_y c a = pure (some (u16 (a + c.y)))
  address_of indirect c a = do target ← read_indirect a; pure (some target)
  address_of indirect_x c a = do target ← read16_zp (u8 (u8 a + c.x)); pure (some target)
  address_of indirect_y c a = do base ← read16_zp (bit_and a 0xff); pure (some (u16 (base + c.y)))
  address_of _ c a = pure none

  unfoldable pub resolve_ea : AddrMode → Operand → M bus (Option ℕ)
  unfolding address_of
  resolve_ea mode operand = with_addr operand (λ a. get_cpu >>= λ c. address_of mode c a)

  unfoldable pub read_operand : AddrMode → Operand → Option ℕ → M bus ℕ
  read_operand immediate operand ea = pure (immediate_value operand)
  read_operand accumulator operand ea = do c ← get_cpu; pure c.a
  read_operand _ operand ea = read (Option.get_or ea 0)
