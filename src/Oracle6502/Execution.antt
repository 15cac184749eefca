-- ===== src/Oracle6502/Execution.antt =====
-- crates/oracle_6502/src/lib.rs: `resolve_ea`, `read_operand` and `execute` keep the machine well
-- formed, and no `unwrap` of theirs fails.
use nes_to_sms.Base.{
  ℕ, ◌+◌, ◌<◌, ◌≡◌, refl, arith, Bool, true, false, bit_and, u8, u16, bit_and_mask, Option, none,
  some,
}
use nes_to_sms.Cpu6502.Isa.{
  AddrMode, implied, accumulator, immediate, zero_page, zero_page_x, zero_page_y, absolute,
  absolute_x, absolute_y, indirect, indirect_x, indirect_y, relative, Operand, absent, imm, addr,
  rel,
}
use nes_to_sms.Oracle6502.Cpu.{Cpu}
use nes_to_sms.Oracle6502.Machine.{Bus}
use nes_to_sms.Oracle6502.Address.{
  immediate_value, read_indirect, address_of, resolve_ea, read_operand,
}
use nes_to_sms.Oracle6502.Registers.{IsCpu}
use nes_to_sms.Oracle6502.Hoare.{
  ByteBus, Keeps, IsByte, pure-Keeps, bind-Keeps, get_cpu-Keeps, read-Keeps,
}
use nes_to_sms.Oracle6502.Safety.{IsWord, word-lt, read16_zp-Keeps}

-- The modes that give an effective address.
abbrev pub has_address : AddrMode → Bool
has_address implied = false
has_address accumulator = false
has_address immediate = false
has_address relative = false
has_address _ = true

-- A result of `resolve_ea`: an address exactly for the modes that have one.
abbrev pub EaFits : AddrMode → Option ℕ → Type 0
EaFits mode none = has_address mode ≡ false
EaFits mode (some a) = a < 65536

abbrev pub OperandFits : AddrMode → Operand → Type 0
OperandFits mode absent = has_address mode ≡ false
OperandFits mode (imm v) = (v < 256) × (has_address mode ≡ false)
OperandFits mode (rel b) = (b < 256) × (has_address mode ≡ false)
OperandFits mode (addr a) = a < 65536

immediate_value-lt : (mode : AddrMode) (o : Operand) → OperandFits mode o → immediate_value o < 256
immediate_value-lt mode (imm v) h = h.0
immediate_value-lt mode _ h = omega arith

module _ {bus : Bus} {laws : ByteBus bus} where
  read_indirect-Keeps : (ptr : ℕ) → Keeps laws IsWord (read_indirect ptr)
  unfolding read_indirect
  read_indirect-Keeps ptr =
      bind-Keeps (read-Keeps ptr)
        λ lo hl. bind-Keeps (read-Keeps _) λ hi hh. pure-Keeps _ (word-lt hi lo hh hl)

  address_of-Keeps :
      (mode : AddrMode) (c : Cpu) (a : ℕ)
      → IsCpu c
      → a < 65536
      → Keeps laws (EaFits mode) (address_of mode c a)
  unfolding address_of
  address_of-Keeps implied c a hc ha = pure-Keeps none refl
  address_of-Keeps accumulator c a hc ha = pure-Keeps none refl
  address_of-Keeps immediate c a hc ha = pure-Keeps none refl
  address_of-Keeps relative c a hc ha = pure-Keeps none refl
  address_of-Keeps zero_page c a hc ha =
      pure-Keeps (some (bit_and a 0xff)) (omega (arith, bit_and_mask 8 a))
  address_of-Keeps zero_page_x c a hc ha = pure-Keeps (some (u8 (u8 a + c.x))) (omega arith)
  address_of-Keeps zero_page_y c a hc ha = pure-Keeps (some (u8 (u8 a + c.y))) (omega arith)
  address_of-Keeps absolute c a hc ha = pure-Keeps (some a) ha
  address_of-Keeps absolute_x c a hc ha = pure-Keeps (some (u16 (a + c.x))) (omega arith)
  address_of-Keeps absolute_y c a hc ha = pure-Keeps (some (u16 (a + c.y))) (omega arith)
  address_of-Keeps indirect c a hc ha =
      bind-Keeps (read_indirect-Keeps a) λ t ht. pure-Keeps (some t) ht
  address_of-Keeps indirect_x c a hc ha =
      bind-Keeps (read16_zp-Keeps _) λ t ht. pure-Keeps (some t) ht
  address_of-Keeps indirect_y c a hc ha =
      bind-Keeps (read16_zp-Keeps _) λ b hb. pure-Keeps (some (u16 (b + c.y))) (omega arith)

  pub resolve_ea-Keeps :
      (mode : AddrMode) (operand : Operand)
      → OperandFits mode operand
      → Keeps laws (EaFits mode) (resolve_ea mode operand)
  unfolding resolve_ea
  resolve_ea-Keeps mode (addr a) h = bind-Keeps get_cpu-Keeps λ c hc. address_of-Keeps mode c a hc h
  resolve_ea-Keeps mode absent h = pure-Keeps none h
  resolve_ea-Keeps mode (imm v) h = pure-Keeps none h.1
  resolve_ea-Keeps mode (rel b) h = pure-Keeps none h.1

  pub read_operand-Keeps :
      (mode : AddrMode) (operand : Operand) (ea : Option ℕ)
      → OperandFits mode operand
      → Keeps laws IsByte (read_operand mode operand ea)
  unfolding read_operand
  read_operand-Keeps immediate operand ea h = pure-Keeps _ (immediate_value-lt immediate operand h)
  read_operand-Keeps accumulator operand ea h =
      bind-Keeps get_cpu-Keeps λ c hc. pure-Keeps c.a hc.a_byte
  read_operand-Keeps _ operand ea h = read-Keeps _
