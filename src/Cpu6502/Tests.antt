-- ===== src/Cpu6502/Tests.antt =====
-- crates/cpu6502: the theorems on the decoder at LDA $1234.
use nes_to_sms.Base.{ℕ, List, [], ◌∷◌, take, drop, length, ◌≡◌, ◌+◌, ◌≤◌, refl, ok, arith}
use nes_to_sms.Cpu6502.Isa.{Instruction, operand_bytes}
use nes_to_sms.Cpu6502.Table.{opcode_info}
use nes_to_sms.Cpu6502.Decode.{decoded, decode_at, operand_of}
use nes_to_sms.Cpu6502.Encoding.{encode, encode-decode_at}

abbrev lda_bytes : List ℕ
lda_bytes = 0xea ∷ 0xad ∷ 0x34 ∷ 0x12 ∷ []

abbrev lda : Instruction
lda = decoded lda_bytes 0x8000 1 0xad

lda-decoded : decode_at lda_bytes 0x8000 1 ≡ ok lda
unfolding decode_at decoded opcode_info operand_bytes operand_of
lda-decoded = refl

encode-decode_at_example :
    (encode lda ≡ take lda.size (drop 1 lda_bytes))
    × (1 + lda.size ≤ length lda_bytes)
    × (lda.pc ≡ 0x8000)
encode-decode_at_example = encode-decode_at lda_bytes 0x8000 1 (omega arith) lda-decoded
