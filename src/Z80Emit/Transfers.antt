-- ===== src/Z80Emit/Transfers.antt =====
-- crates/z80_emit/src/lib.rs: the single bits, whose index the source asserts, the loads of DE through
-- an address, and the transfers between translated routines that make no fresh label. The answer
-- `none` is a failed assertion.
use Prim.Native.String.{String}
use nes_to_sms.Base.{
  ℕ, ◌*◌, ◌/◌, ◌==◌, ltb, u8, bit_or, Bool, false, Option, none, some, [], ◌∷◌, if◌then◌else◌,
}
use nes_to_sms.Z80Emit.Program.{Program, lookup, reference}
use nes_to_sms.Z80Emit.Encode.{emit_bytes, emit_cb, call, jp, ld_bc_label}
use nes_to_sms.Z80Emit.Loads.{ld_bc_imm, ld_h_a}

-- `base | (bit << 3)` after the prefix CB.
unfoldable pub emit_bit : (base bit : ℕ) → Program → Option Program
emit_bit base bit p = if ltb bit 8 then some (emit_cb (bit_or base (bit * 8)) p) else none

abbrev pub bit_a : ℕ → Program → Option Program
bit_a = emit_bit 0x47

abbrev pub set_a : ℕ → Program → Option Program
set_a = emit_bit 0xc7

abbrev pub res_a : ℕ → Program → Option Program
res_a = emit_bit 0x87

abbrev pub bit_n_hl_ptr : ℕ → Program → Option Program
bit_n_hl_ptr = emit_bit 0x46

abbrev pub set_n_hl_ptr : ℕ → Program → Option Program
set_n_hl_ptr = emit_bit 0xc6

abbrev pub res_n_hl_ptr : ℕ → Program → Option Program
res_n_hl_ptr = emit_bit 0x86

abbrev pub ld_de_abs : ℕ → Program → Program
ld_de_abs addr = emit_bytes (0xed ∷ 0x5b ∷ u8 addr ∷ u8 (addr / 256) ∷ [])

abbrev pub ld_abs_de : ℕ → Program → Program
ld_abs_de addr = emit_bytes (0xed ∷ 0x53 ∷ u8 addr ∷ u8 (addr / 256) ∷ [])

-- `self.label_section.get(label) == Some(&self.current)`.
abbrev pub is_local : String → Program → Bool
is_local name p = elim (lookup name p.label_section) [ none ↦ false | some idx ↦ idx == p.current ]

abbrev pub ld_a_bank_imm : String → Program → Program
ld_a_bank_imm name = emit_bytes (0x3e ∷ 0x00 ∷ [])

-- A routine of the same section is reached directly, any other through a routine of the runtime.
unfoldable pub native_call : String → Program → Program
native_call name p = reference name (
    if is_local name p
    then call name p
    else call "rt_far_ncall" (emit_bytes (0x26 ∷ 0x00 ∷ []) (ld_bc_label name p)))

unfoldable pub native_tail_jmp : String → Program → Program
native_tail_jmp name p = reference name (
    if is_local name p
    then jp name p
    else jp "rt_far_tail" (emit_bytes (0x26 ∷ 0x00 ∷ []) (ld_bc_label name p)))

-- The label is referenced only where it is not of the same section.
unfoldable pub translated_tail_jmp : String → Program → Program
translated_tail_jmp name p =
    if is_local name p
    then jp name p
    else reference name
        (jp "rt_translated_tail_gate" (emit_bytes (0x3e ∷ 0x00 ∷ []) (ld_bc_label name (ld_h_a p))))

unfoldable pub translated_banked_tail_dispatch : ℕ → Program → Program
translated_banked_tail_dispatch addr p = jp "rt_banked_tail_dispatch" (ld_bc_imm addr p)
