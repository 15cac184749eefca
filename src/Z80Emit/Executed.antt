-- ===== src/Z80Emit/Executed.antt =====
-- crates/z80_emit/src/lib.rs against crates/z80_emu/src/lib.rs: what the interpreter does with the bytes
-- that the methods on the registers emit.
use nes_to_sms.Base.{ℕ, ◌≡◌, refl}
use nes_to_sms.Z80Emu.Cpu.{Cpu}
use nes_to_sms.Z80Emu.Machine.{Bus, ◌>>=◌, modify, fetch_byte, read_operand, write_operand, arm_of}
use nes_to_sms.Z80Emu.High.{alu, alu_block, alu_immediate, load_block, transfer_arms, other_arms}
use nes_to_sms.Z80Emu.Step.{dispatch}
use nes_to_sms.Z80Emit.Program.{Program}
use nes_to_sms.Z80Emit.Encode.{emit1, emit_imm8}
use nes_to_sms.Z80Emit.Methods.{
  Each, none, ◌⊳◌, alu_methods, alu_constants, own_constants, moves, RunsAlu, RunsConstant, RunsOwn,
  RunsMove,
}

with_register :
    {m : Program → Program} {f : ℕ → Cpu → Cpu} {r : ℕ} (op : ℕ)
    → m ≡ emit1 op
    → ((bus : Bus) (pc : ℕ) → dispatch {bus = bus} pc op ≡ (read_operand r >>= λ v. modify (f v)))
    → RunsAlu (m, f, r)
with_register op e h = record { op = op; emits = e; runs = h }

with_constant :
    {m : ℕ → Program → Program} {f : ℕ → Cpu → Cpu} (op : ℕ)
    → ((n : ℕ) → m n ≡ emit_imm8 op n)
    → ((bus : Bus) (pc : ℕ) → dispatch {bus = bus} pc op ≡ (fetch_byte >>= λ v. modify (f v)))
    → RunsConstant (m, f)
with_constant op e h = record { op = op; emits = e; runs = h }

with_own_constant :
    {m : Program → Program} {f : ℕ → Cpu → Cpu} {n : ℕ} (op : ℕ)
    → m ≡ emit_imm8 op n
    → ((bus : Bus) (pc : ℕ) → dispatch {bus = bus} pc op ≡ (fetch_byte >>= λ v. modify (f v)))
    → RunsOwn (m, f, n)
with_own_constant op e h = record { op = op; emits = e; runs = h }

moving :
    {m : Program → Program} {d s : ℕ} (op : ℕ)
    → m ≡ emit1 op
    → ((bus : Bus) (pc : ℕ) → dispatch {bus = bus} pc op ≡ (read_operand s >>= write_operand d))
    → RunsMove (m, d, s)
moving op e h = record { op = op; emits = e; runs = h }

alu_methods-run : Each RunsAlu alu_methods
unfolding dispatch alu_block alu
alu_methods-run =
    with_register 0x80 refl (λ bus pc. refl)
    ⊳ with_register 0x81 refl (λ bus pc. refl)
    ⊳ with_register 0x82 refl (λ bus pc. refl)
    ⊳ with_register 0x83 refl (λ bus pc. refl)
    ⊳ with_register 0x84 refl (λ bus pc. refl)
    ⊳ with_register 0x85 refl (λ bus pc. refl)
    ⊳ with_register 0x86 refl (λ bus pc. refl)
    ⊳ with_register 0x87 refl (λ bus pc. refl)
    ⊳ with_register 0x88 refl (λ bus pc. refl)
    ⊳ with_register 0x89 refl (λ bus pc. refl)
    ⊳ with_register 0x8a refl (λ bus pc. refl)
    ⊳ with_register 0x8b refl (λ bus pc. refl)
    ⊳ with_register 0x8c refl (λ bus pc. refl)
    ⊳ with_register 0x8d refl (λ bus pc. refl)
    ⊳ with_register 0x8e refl (λ bus pc. refl)
    ⊳ with_register 0x8f refl (λ bus pc. refl)
    ⊳ with_register 0x90 refl (λ bus pc. refl)
    ⊳ with_register 0x91 refl (λ bus pc. refl)
    ⊳ with_register 0x92 refl (λ bus pc. refl)
    ⊳ with_register 0x93 refl (λ bus pc. refl)
    ⊳ with_register 0x94 refl (λ bus pc. refl)
    ⊳ with_register 0x95 refl (λ bus pc. refl)
    ⊳ with_register 0x96 refl (λ bus pc. refl)
    ⊳ with_register 0x97 refl (λ bus pc. refl)
    ⊳ with_register 0x98 refl (λ bus pc. refl)
    ⊳ with_register 0x99 refl (λ bus pc. refl)
    ⊳ with_register 0x9a refl (λ bus pc. refl)
    ⊳ with_register 0x9b refl (λ bus pc. refl)
    ⊳ with_register 0x9c refl (λ bus pc. refl)
    ⊳ with_register 0x9d refl (λ bus pc. refl)
    ⊳ with_register 0x9e refl (λ bus pc. refl)
    ⊳ with_register 0x9f refl (λ bus pc. refl)
    ⊳ with_register 0xa0 refl (λ bus pc. refl)
    ⊳ with_register 0xa1 refl (λ bus pc. refl)
    ⊳ with_register 0xa2 refl (λ bus pc. refl)
    ⊳ with_register 0xa3 refl (λ bus pc. refl)
    ⊳ with_register 0xa4 refl (λ bus pc. refl)
    ⊳ with_register 0xa5 refl (λ bus pc. refl)
    ⊳ with_register 0xa6 refl (λ bus pc. refl)
    ⊳ with_register 0xa7 refl (λ bus pc. refl)
    ⊳ with_register 0xa8 refl (λ bus pc. refl)
    ⊳ with_register 0xa9 refl (λ bus pc. refl)
    ⊳ with_register 0xaa refl (λ bus pc. refl)
    ⊳ with_register 0xab refl (λ bus pc. refl)
    ⊳ with_register 0xac refl (λ bus pc. refl)
    ⊳ with_register 0xad refl (λ bus pc. refl)
    ⊳ with_register 0xae refl (λ bus pc. refl)
    ⊳ with_register 0xaf refl (λ bus pc. refl)
    ⊳ with_register 0xb0 refl (λ bus pc. refl)
    ⊳ with_register 0xb1 refl (λ bus pc. refl)
    ⊳ with_register 0xb2 refl (λ bus pc. refl)
    ⊳ with_register 0xb3 refl (λ bus pc. refl)
    ⊳ with_register 0xb4 refl (λ bus pc. refl)
    ⊳ with_register 0xb5 refl (λ bus pc. refl)
    ⊳ with_register 0xb6 refl (λ bus pc. refl)
    ⊳ with_register 0xb7 refl (λ bus pc. refl)
    ⊳ with_register 0xb8 refl (λ bus pc. refl)
    ⊳ with_register 0xb9 refl (λ bus pc. refl)
    ⊳ with_register 0xba refl (λ bus pc. refl)
    ⊳ with_register 0xbb refl (λ bus pc. refl)
    ⊳ with_register 0xbc refl (λ bus pc. refl)
    ⊳ with_register 0xbd refl (λ bus pc. refl)
    ⊳ with_register 0xbe refl (λ bus pc. refl)
    ⊳ with_register 0xbf refl (λ bus pc. refl)
    ⊳ none

alu_constants-run : Each RunsConstant alu_constants
unfolding dispatch alu_immediate alu arm_of transfer_arms other_arms
alu_constants-run =
    with_constant 0xc6 (λ n. refl) (λ bus pc. refl)
    ⊳ with_constant 0xce (λ n. refl) (λ bus pc. refl)
    ⊳ with_constant 0xd6 (λ n. refl) (λ bus pc. refl)
    ⊳ with_constant 0xde (λ n. refl) (λ bus pc. refl)
    ⊳ with_constant 0xe6 (λ n. refl) (λ bus pc. refl)
    ⊳ with_constant 0xee (λ n. refl) (λ bus pc. refl)
    ⊳ with_constant 0xf6 (λ n. refl) (λ bus pc. refl)
    ⊳ with_constant 0xfe (λ n. refl) (λ bus pc. refl)
    ⊳ none

own_constants-run : Each RunsOwn own_constants
unfolding dispatch alu_immediate alu arm_of transfer_arms other_arms
own_constants-run = with_own_constant 0xce refl (λ bus pc. refl) ⊳ none

moves-run : Each RunsMove moves
unfolding dispatch load_block
moves-run =
    moving 0x40 refl (λ bus pc. refl)
    ⊳ moving 0x41 refl (λ bus pc. refl)
    ⊳ moving 0x42 refl (λ bus pc. refl)
    ⊳ moving 0x43 refl (λ bus pc. refl)
    ⊳ moving 0x44 refl (λ bus pc. refl)
    ⊳ moving 0x45 refl (λ bus pc. refl)
    ⊳ moving 0x46 refl (λ bus pc. refl)
    ⊳ moving 0x47 refl (λ bus pc. refl)
    ⊳ moving 0x48 refl (λ bus pc. refl)
    ⊳ moving 0x49 refl (λ bus pc. refl)
    ⊳ moving 0x4a refl (λ bus pc. refl)
    ⊳ moving 0x4b refl (λ bus pc. refl)
    ⊳ moving 0x4c refl (λ bus pc. refl)
    ⊳ moving 0x4d refl (λ bus pc. refl)
    ⊳ moving 0x4e refl (λ bus pc. refl)
    ⊳ moving 0x4f refl (λ bus pc. refl)
    ⊳ moving 0x50 refl (λ bus pc. refl)
    ⊳ moving 0x51 refl (λ bus pc. refl)
    ⊳ moving 0x52 refl (λ bus pc. refl)
    ⊳ moving 0x53 refl (λ bus pc. refl)
    ⊳ moving 0x54 refl (λ bus pc. refl)
    ⊳ moving 0x55 refl (λ bus pc. refl)
    ⊳ moving 0x56 refl (λ bus pc. refl)
    ⊳ moving 0x57 refl (λ bus pc. refl)
    ⊳ moving 0x58 refl (λ bus pc. refl)
    ⊳ moving 0x59 refl (λ bus pc. refl)
    ⊳ moving 0x5a refl (λ bus pc. refl)
    ⊳ moving 0x5b refl (λ bus pc. refl)
    ⊳ moving 0x5c refl (λ bus pc. refl)
    ⊳ moving 0x5d refl (λ bus pc. refl)
    ⊳ moving 0x5e refl (λ bus pc. refl)
    ⊳ moving 0x5f refl (λ bus pc. refl)
    ⊳ moving 0x60 refl (λ bus pc. refl)
    ⊳ moving 0x61 refl (λ bus pc. refl)
    ⊳ moving 0x62 refl (λ bus pc. refl)
    ⊳ moving 0x63 refl (λ bus pc. refl)
    ⊳ moving 0x64 refl (λ bus pc. refl)
    ⊳ moving 0x65 refl (λ bus pc. refl)
    ⊳ moving 0x66 refl (λ bus pc. refl)
    ⊳ moving 0x67 refl (λ bus pc. refl)
    ⊳ moving 0x68 refl (λ bus pc. refl)
    ⊳ moving 0x69 refl (λ bus pc. refl)
    ⊳ moving 0x6a refl (λ bus pc. refl)
    ⊳ moving 0x6b refl (λ bus pc. refl)
    ⊳ moving 0x6c refl (λ bus pc. refl)
    ⊳ moving 0x6d refl (λ bus pc. refl)
    ⊳ moving 0x6e refl (λ bus pc. refl)
    ⊳ moving 0x6f refl (λ bus pc. refl)
    ⊳ moving 0x70 refl (λ bus pc. refl)
    ⊳ moving 0x71 refl (λ bus pc. refl)
    ⊳ moving 0x72 refl (λ bus pc. refl)
    ⊳ moving 0x73 refl (λ bus pc. refl)
    ⊳ moving 0x74 refl (λ bus pc. refl)
    ⊳ moving 0x75 refl (λ bus pc. refl)
    ⊳ moving 0x77 refl (λ bus pc. refl)
    ⊳ moving 0x78 refl (λ bus pc. refl)
    ⊳ moving 0x79 refl (λ bus pc. refl)
    ⊳ moving 0x7a refl (λ bus pc. refl)
    ⊳ moving 0x7b refl (λ bus pc. refl)
    ⊳ moving 0x7c refl (λ bus pc. refl)
    ⊳ moving 0x7d refl (λ bus pc. refl)
    ⊳ moving 0x7e refl (λ bus pc. refl)
    ⊳ moving 0x7b refl (λ bus pc. refl)
    ⊳ moving 0x57 refl (λ bus pc. refl)
    ⊳ moving 0x5f refl (λ bus pc. refl)
    ⊳ moving 0x6b refl (λ bus pc. refl)
    ⊳ none

-- Each method that emits only an addition, subtraction, comparison, AND, OR or XOR between the
-- accumulator and a register, the byte at HL or a constant, or a load between two of the registers and
-- the byte at HL, emits one opcode, with the constant behind it, for which the interpreter does what the
-- method is named for: the operation with the operand, with or without carry, or the load of the one
-- from the other. The methods under a second name are among them: the moves of the resident registers,
-- and the addition of the carry alone.
pub methods-run :
    Each RunsAlu alu_methods
    × Each RunsConstant alu_constants
    × Each RunsOwn own_constants
    × Each RunsMove moves
methods-run = (alu_methods-run, alu_constants-run, own_constants-run, moves-run)
