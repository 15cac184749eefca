-- ===== src/Z80Emit/Encode.antt =====
-- crates/z80_emit/src/lib.rs: the helpers that emit an instruction, and the instructions that jump,
-- call, return and load a label.
use Prim.Native.String.{String}
use nes_to_sms.Base.{
  ℕ, zero, suc, ◌+◌, ◌-◌, ◌/◌, ◌%◌, ◌==◌, u8, Option, none, some, List, [], ◌∷◌, ◌++◌,
  if◌then◌else◌,
}
use nes_to_sms.Z80Emit.Section
use nes_to_sms.Z80Emit.Program.{
  Program, Patch, PatchKind, abs16, rel8, sec, current_section, label, reference,
}

abbrev pub emit_bytes : List ℕ → Program → Program
emit_bytes bytes = sec (λ s. Section.push_asm (Section.push_bytes bytes s))

abbrev pub emit1 : ℕ → Program → Program
emit1 b = emit_bytes (b ∷ [])

abbrev pub emit_imm8 : (op n : ℕ) → Program → Program
emit_imm8 op n = emit_bytes (op ∷ n ∷ [])

abbrev pub emit_imm16 : (op nn : ℕ) → Program → Program
emit_imm16 op nn = emit_bytes (op ∷ u8 nn ∷ u8 (nn / 256) ∷ [])

abbrev pub emit_cb : ℕ → Program → Program
emit_cb op = emit_bytes (0xcb ∷ op ∷ [])

-- The patch of the byte after the opcode, which is the next one of the section.
abbrev pub patched : (ℕ → PatchKind) → String → Program → Patch
patched kind name p = record {
  label = name;
  section_idx = p.current;
  kind = kind (Section.len (current_section p) + 1);
}

unfoldable pub emit_jp_like : ℕ → String → Program → Program
emit_jp_like op name p = record (emit_bytes (op ∷ 0 ∷ 0 ∷ []) p) {
  patches = p.patches ++ patched abs16 name p ∷ [];
}

unfoldable pub emit_jr_like : ℕ → String → Program → Program
emit_jr_like op name p = record (emit_bytes (op ∷ 0 ∷ []) p) {
  patches = p.patches ++ patched rel8 name p ∷ [];
}

unfoldable pub data_bytes : Option String → List ℕ → Program → Program
data_bytes none bytes p = emit_bytes bytes p
data_bytes (some name) bytes p = emit_bytes bytes (label name p)

unfoldable pub word_label : String → Program → Program
word_label name p = reference name (emit_bytes (0 ∷ 0 ∷ []) p)

unfoldable pub bank_label : String → Program → Program
bank_label name p = reference name (emit_bytes (0 ∷ []) p)

unfoldable pub dispatch_entry : (nes_addr nes_bank : ℕ) → String → Program → Program
dispatch_entry nes_addr nes_bank name p =
    reference name (emit_bytes (u8 nes_addr ∷ u8 (nes_addr / 256) ∷ nes_bank ∷ 0 ∷ 0 ∷ 0 ∷ []) p)

abbrev pub zeros : ℕ → List ℕ
zeros zero = []
zeros (suc n) = 0 ∷ zeros n

-- An alignment of 0 divides by zero in the source.
unfoldable pub align : ℕ → Program → Program
align alignment p =
    let rem = Section.len (current_section p) % alignment in
    if rem == 0 then p else emit_bytes (zeros (alignment - rem)) p

abbrev pub ld_hl_label : String → Program → Program
ld_hl_label = emit_jp_like 0x21

abbrev pub ld_bc_label : String → Program → Program
ld_bc_label = emit_jp_like 0x01

abbrev pub ld_de_label : String → Program → Program
ld_de_label = emit_jp_like 0x11

abbrev pub jp : String → Program → Program
jp = emit_jp_like 0xc3

abbrev pub jp_z : String → Program → Program
jp_z = emit_jp_like 0xca

abbrev pub jp_nz : String → Program → Program
jp_nz = emit_jp_like 0xc2

abbrev pub jp_c : String → Program → Program
jp_c = emit_jp_like 0xda

abbrev pub jp_nc : String → Program → Program
jp_nc = emit_jp_like 0xd2

abbrev pub jp_m : String → Program → Program
jp_m = emit_jp_like 0xfa

abbrev pub jp_p : String → Program → Program
jp_p = emit_jp_like 0xf2

abbrev pub jp_pe : String → Program → Program
jp_pe = emit_jp_like 0xea

abbrev pub jp_po : String → Program → Program
jp_po = emit_jp_like 0xe2

abbrev pub call : String → Program → Program
call = emit_jp_like 0xcd

abbrev pub call_z : String → Program → Program
call_z = emit_jp_like 0xcc

abbrev pub call_nz : String → Program → Program
call_nz = emit_jp_like 0xc4

abbrev pub jr : String → Program → Program
jr = emit_jr_like 0x18

abbrev pub jr_z : String → Program → Program
jr_z = emit_jr_like 0x28

abbrev pub jr_nz : String → Program → Program
jr_nz = emit_jr_like 0x20

abbrev pub jr_c : String → Program → Program
jr_c = emit_jr_like 0x38

abbrev pub jr_nc : String → Program → Program
jr_nc = emit_jr_like 0x30

abbrev pub djnz : String → Program → Program
djnz = emit_jr_like 0x10
