-- ===== src/Z80Emit/Methods.antt =====
-- crates/z80_emit/src/lib.rs against crates/z80_emu/src/lib.rs: the methods on the registers, with what
-- the interpreter is to do with the bytes that they emit.
use nes_to_sms.Base.{ℕ, ◌≡◌, true, false, List, [], ◌∷◌}
use nes_to_sms.Z80Emu.Cpu.{Cpu, alu_add, sub_a, alu_and, alu_or, alu_xor, alu_cp}
use nes_to_sms.Z80Emu.Machine.{Bus, ◌>>=◌, modify, fetch_byte, read_operand, write_operand}
use nes_to_sms.Z80Emu.Step.{dispatch}
use nes_to_sms.Z80Emit.Program.{Program}
use nes_to_sms.Z80Emit.Encode.{emit1, emit_imm8}
use nes_to_sms.Z80Emit.Loads.{
  ld_b_a, ld_c_a, ld_d_a, ld_e_a, ld_h_a, ld_l_a, ld_hl_ptr_a, ld_a_b, ld_a_c, ld_a_d, ld_a_e,
  ld_a_h, ld_a_l, ld_a_hl_ptr,
}
use nes_to_sms.Z80Emit.Arithmetic.{
  add_a_b, add_a_c, add_a_d, add_a_e, add_a_h, add_a_l, add_a_hl_ptr, add_a_a, add_a_imm, adc_a_b,
  adc_a_c, adc_a_d, adc_a_e, adc_a_h, adc_a_l, adc_a_hl_ptr, adc_a_a, adc_a_imm, sub_b, sub_c,
  sub_d, sub_e, sub_h, sub_l, sub_hl_ptr, sub_a as emit_sub_a, sub_imm, sbc_a_b, sbc_a_c, sbc_a_d,
  sbc_a_e, sbc_a_h, sbc_a_a, sbc_a_imm, and_imm, xor_imm, or_imm, cp_imm,
}
use nes_to_sms.Z80Emit.Logic.{
  sbc_a_l, sbc_a_hl_ptr, and_b, and_c, and_d, and_e, and_h, and_l, and_hl_ptr, and_a, xor_b, xor_c,
  xor_d, xor_e, xor_h, xor_l, xor_hl_ptr, xor_a, or_b, or_c, or_d, or_e, or_h, or_l, or_hl_ptr,
  or_a, cp_b, cp_c, cp_d, cp_e, cp_h, cp_l, cp_hl_ptr, cp_a,
}
use nes_to_sms.Z80Emit.Moves.{
  ld_b_b, ld_b_c, ld_b_d, ld_b_e, ld_b_h, ld_b_l, ld_b_hl_ptr, ld_c_b, ld_c_c, ld_c_d, ld_c_e,
  ld_c_h, ld_c_l, ld_c_hl_ptr, ld_d_b, ld_d_c, ld_d_d, ld_d_e, ld_d_h, ld_d_l, ld_d_hl_ptr, ld_e_b,
  ld_e_c, ld_e_d, ld_e_e, ld_e_h, ld_e_l, ld_e_hl_ptr, ld_h_b, ld_h_c, ld_h_d, ld_h_e, ld_h_h,
  ld_h_l, ld_h_hl_ptr, ld_l_b, ld_l_c, ld_l_d, ld_l_e, ld_l_h, ld_l_l, ld_l_hl_ptr, ld_hl_ptr_b,
  ld_hl_ptr_c, ld_hl_ptr_d, ld_hl_ptr_e, ld_hl_ptr_h, ld_hl_ptr_l, ld_a_e_reg, ld_d_a_reg,
  ld_e_a_reg, ld_l_e_reg, adc_a_imm0,
}

-- The methods of the arithmetic with a register, what they do to the accumulator, and the number of
-- the register; 6 is the byte at HL.
abbrev pub alu_methods : List ((Program → Program) × (ℕ → Cpu → Cpu) × ℕ)
alu_methods =
    (add_a_b, (λ v. alu_add v false), 0)
    ∷ (add_a_c, (λ v. alu_add v false), 1)
    ∷ (add_a_d, (λ v. alu_add v false), 2)
    ∷ (add_a_e, (λ v. alu_add v false), 3)
    ∷ (add_a_h, (λ v. alu_add v false), 4)
    ∷ (add_a_l, (λ v. alu_add v false), 5)
    ∷ (add_a_hl_ptr, (λ v. alu_add v false), 6)
    ∷ (add_a_a, (λ v. alu_add v false), 7)
    ∷ (adc_a_b, (λ v. alu_add v true), 0)
    ∷ (adc_a_c, (λ v. alu_add v true), 1)
    ∷ (adc_a_d, (λ v. alu_add v true), 2)
    ∷ (adc_a_e, (λ v. alu_add v true), 3)
    ∷ (adc_a_h, (λ v. alu_add v true), 4)
    ∷ (adc_a_l, (λ v. alu_add v true), 5)
    ∷ (adc_a_hl_ptr, (λ v. alu_add v true), 6)
    ∷ (adc_a_a, (λ v. alu_add v true), 7)
    ∷ (sub_b, (λ v. sub_a v false), 0)
    ∷ (sub_c, (λ v. sub_a v false), 1)
    ∷ (sub_d, (λ v. sub_a v false), 2)
    ∷ (sub_e, (λ v. sub_a v false), 3)
    ∷ (sub_h, (λ v. sub_a v false), 4)
    ∷ (sub_l, (λ v. sub_a v false), 5)
    ∷ (sub_hl_ptr, (λ v. sub_a v false), 6)
    ∷ (emit_sub_a, (λ v. sub_a v false), 7)
    ∷ (sbc_a_b, (λ v. sub_a v true), 0)
    ∷ (sbc_a_c, (λ v. sub_a v true), 1)
    ∷ (sbc_a_d, (λ v. sub_a v true), 2)
    ∷ (sbc_a_e, (λ v. sub_a v true), 3)
    ∷ (sbc_a_h, (λ v. sub_a v true), 4)
    ∷ (sbc_a_l, (λ v. sub_a v true), 5)
    ∷ (sbc_a_hl_ptr, (λ v. sub_a v true), 6)
    ∷ (sbc_a_a, (λ v. sub_a v true), 7)
    ∷ (and_b, alu_and, 0)
    ∷ (and_c, alu_and, 1)
    ∷ (and_d, alu_and, 2)
    ∷ (and_e, alu_and, 3)
    ∷ (and_h, alu_and, 4)
    ∷ (and_l, alu_and, 5)
    ∷ (and_hl_ptr, alu_and, 6)
    ∷ (and_a, alu_and, 7)
    ∷ (xor_b, alu_xor, 0)
    ∷ (xor_c, alu_xor, 1)
    ∷ (xor_d, alu_xor, 2)
    ∷ (xor_e, alu_xor, 3)
    ∷ (xor_h, alu_xor, 4)
    ∷ (xor_l, alu_xor, 5)
    ∷ (xor_hl_ptr, alu_xor, 6)
    ∷ (xor_a, alu_xor, 7)
    ∷ (or_b, alu_or, 0)
    ∷ (or_c, alu_or, 1)
    ∷ (or_d, alu_or, 2)
    ∷ (or_e, alu_or, 3)
    ∷ (or_h, alu_or, 4)
    ∷ (or_l, alu_or, 5)
    ∷ (or_hl_ptr, alu_or, 6)
    ∷ (or_a, alu_or, 7)
    ∷ (cp_b, alu_cp, 0)
    ∷ (cp_c, alu_cp, 1)
    ∷ (cp_d, alu_cp, 2)
    ∷ (cp_e, alu_cp, 3)
    ∷ (cp_h, alu_cp, 4)
    ∷ (cp_l, alu_cp, 5)
    ∷ (cp_hl_ptr, alu_cp, 6)
    ∷ (cp_a, alu_cp, 7)
    ∷ []

-- Those with a constant.
abbrev pub alu_constants : List ((ℕ → Program → Program) × (ℕ → Cpu → Cpu))
alu_constants =
    (add_a_imm, (λ v. alu_add v false))
    ∷ (adc_a_imm, (λ v. alu_add v true))
    ∷ (sub_imm, (λ v. sub_a v false))
    ∷ (sbc_a_imm, (λ v. sub_a v true))
    ∷ (and_imm, alu_and)
    ∷ (xor_imm, alu_xor)
    ∷ (or_imm, alu_or)
    ∷ (cp_imm, alu_cp)
    ∷ []

-- The loads of a register, the first, from another.
-- The method that emits an operation with a constant of its own.
abbrev pub own_constants : List ((Program → Program) × (ℕ → Cpu → Cpu) × ℕ)
own_constants = (adc_a_imm0, (λ v. alu_add v true), 0) ∷ []

abbrev pub moves : List ((Program → Program) × ℕ × ℕ)
moves =
    (ld_b_b, 0, 0)
    ∷ (ld_b_c, 0, 1)
    ∷ (ld_b_d, 0, 2)
    ∷ (ld_b_e, 0, 3)
    ∷ (ld_b_h, 0, 4)
    ∷ (ld_b_l, 0, 5)
    ∷ (ld_b_hl_ptr, 0, 6)
    ∷ (ld_b_a, 0, 7)
    ∷ (ld_c_b, 1, 0)
    ∷ (ld_c_c, 1, 1)
    ∷ (ld_c_d, 1, 2)
    ∷ (ld_c_e, 1, 3)
    ∷ (ld_c_h, 1, 4)
    ∷ (ld_c_l, 1, 5)
    ∷ (ld_c_hl_ptr, 1, 6)
    ∷ (ld_c_a, 1, 7)
    ∷ (ld_d_b, 2, 0)
    ∷ (ld_d_c, 2, 1)
    ∷ (ld_d_d, 2, 2)
    ∷ (ld_d_e, 2, 3)
    ∷ (ld_d_h, 2, 4)
    ∷ (ld_d_l, 2, 5)
    ∷ (ld_d_hl_ptr, 2, 6)
    ∷ (ld_d_a, 2, 7)
    ∷ (ld_e_b, 3, 0)
    ∷ (ld_e_c, 3, 1)
    ∷ (ld_e_d, 3, 2)
    ∷ (ld_e_e, 3, 3)
    ∷ (ld_e_h, 3, 4)
    ∷ (ld_e_l, 3, 5)
    ∷ (ld_e_hl_ptr, 3, 6)
    ∷ (ld_e_a, 3, 7)
    ∷ (ld_h_b, 4, 0)
    ∷ (ld_h_c, 4, 1)
    ∷ (ld_h_d, 4, 2)
    ∷ (ld_h_e, 4, 3)
    ∷ (ld_h_h, 4, 4)
    ∷ (ld_h_l, 4, 5)
    ∷ (ld_h_hl_ptr, 4, 6)
    ∷ (ld_h_a, 4, 7)
    ∷ (ld_l_b, 5, 0)
    ∷ (ld_l_c, 5, 1)
    ∷ (ld_l_d, 5, 2)
    ∷ (ld_l_e, 5, 3)
    ∷ (ld_l_h, 5, 4)
    ∷ (ld_l_l, 5, 5)
    ∷ (ld_l_hl_ptr, 5, 6)
    ∷ (ld_l_a, 5, 7)
    ∷ (ld_hl_ptr_b, 6, 0)
    ∷ (ld_hl_ptr_c, 6, 1)
    ∷ (ld_hl_ptr_d, 6, 2)
    ∷ (ld_hl_ptr_e, 6, 3)
    ∷ (ld_hl_ptr_h, 6, 4)
    ∷ (ld_hl_ptr_l, 6, 5)
    ∷ (ld_hl_ptr_a, 6, 7)
    ∷ (ld_a_b, 7, 0)
    ∷ (ld_a_c, 7, 1)
    ∷ (ld_a_d, 7, 2)
    ∷ (ld_a_e, 7, 3)
    ∷ (ld_a_h, 7, 4)
    ∷ (ld_a_l, 7, 5)
    ∷ (ld_a_hl_ptr, 7, 6)
    ∷ (ld_a_e_reg, 7, 3)
    ∷ (ld_d_a_reg, 2, 7)
    ∷ (ld_e_a_reg, 3, 7)
    ∷ (ld_l_e_reg, 5, 3)
    ∷ []

pub record RunsAlu (entry : (Program → Program) × (ℕ → Cpu → Cpu) × ℕ) : Type 1 where
  pub op : ℕ
  pub emits : entry.0 ≡ emit1 op
  pub runs :
      (bus : Bus) (pc : ℕ)
      → dispatch {bus = bus} pc op ≡ (read_operand entry.2 >>= λ v. modify (entry.1 v))

pub record RunsConstant (entry : (ℕ → Program → Program) × (ℕ → Cpu → Cpu)) : Type 1 where
  pub op : ℕ
  pub emits : (n : ℕ) → entry.0 n ≡ emit_imm8 op n
  pub runs :
      (bus : Bus) (pc : ℕ) → dispatch {bus = bus} pc op ≡ (fetch_byte >>= λ v. modify (entry.1 v))

pub record RunsOwn (entry : (Program → Program) × (ℕ → Cpu → Cpu) × ℕ) : Type 1 where
  pub op : ℕ
  pub emits : entry.0 ≡ emit_imm8 op entry.2
  pub runs :
      (bus : Bus) (pc : ℕ) → dispatch {bus = bus} pc op ≡ (fetch_byte >>= λ v. modify (entry.1 v))

pub record RunsMove (entry : (Program → Program) × ℕ × ℕ) : Type 1 where
  pub op : ℕ
  pub emits : entry.0 ≡ emit1 op
  pub runs :
      (bus : Bus) (pc : ℕ)
      → dispatch {bus = bus} pc op ≡ (read_operand entry.2 >>= write_operand entry.1)

-- A property of each element of a list.
infixr 6 ◌⊳◌
pub data Each {A : Type 0} (P : A → Type 1) : List A → Type 1 where
  none : Each P []
  ◌⊳◌ : {x : A} {xs : List A} → P x → Each P xs → Each P (x ∷ xs)
