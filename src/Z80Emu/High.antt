-- ===== src/Z80Emu/High.antt =====
-- crates/z80_emu/src/lib.rs: the match arms of `step` for the opcodes from 0xc0, and the two blocks
-- that the register numbers of the opcode select.
use nes_to_sms.Base.{
  ℕ, ◌+◌, ◌*◌, ◌/◌, ◌==◌, u16, bit_and, bit_or, Bool, true, false, not, List, [], ◌∷◌,
  if◌then◌else◌,
}
use nes_to_sms.Z80Emu.Cpu.{
  Cpu, flag_c, flag_pv, flag_s, flag_z, word, high, af, bc, de, hl, set_af, set_bc, set_de, set_hl,
  flag, alu_add, sub_a, alu_and, alu_or, alu_xor, alu_cp,
}
use nes_to_sms.Z80Emu.Machine.{
  Bus, M, step_error, halt, pure, fail, ◌>>=◌, ◌>>◌, get_cpu, modify, read, write, in_port,
  out_port, fetch_byte, fetch_word, push_word, pop_word, read_operand, write_operand,
}

-- The eight operations on the accumulator, by the number in bits 5 to 3.
unfoldable pub alu : ℕ → ℕ → Cpu → Cpu
alu n operand =
    if n == 0
    then alu_add operand false
    else (if n == 1
        then alu_add operand true
        else (if n == 2
            then sub_a operand false
            else (if n == 3
                then sub_a operand true
                else (if n == 4
                    then alu_and operand
                    else (if n == 5
                        then alu_xor operand
                        else (if n == 6 then alu_or operand else alu_cp operand))))))

unfoldable pub ei : Cpu → Cpu
ei r = record r { iff1 = true; iff2 = true; ei_pending = 2 }

unfoldable pub di : Cpu → Cpu
di r = record r { iff1 = false; iff2 = false; ei_pending = 0 }

unfoldable pub ex_de_hl : Cpu → Cpu
ex_de_hl r = record r { d = r.h; e = r.l; h = r.d; l = r.e }

unfoldable pub exx : Cpu → Cpu
exx r = record r {
  b = high r.bc_shadow;
  c = bit_and r.bc_shadow 0xff;
  d = high r.de_shadow;
  e = bit_and r.de_shadow 0xff;
  h = high r.hl_shadow;
  l = bit_and r.hl_shadow 0xff;
  bc_shadow = word r.b r.c;
  de_shadow = word r.d r.e;
  hl_shadow = word r.h r.l;
}

module _ {bus : Bus} where
  -- 0x40..=0x7f: HALT, or a load between the registers and the byte at HL.
  unfoldable pub load_block : ℕ → M bus (Unit {0})
  load_block op =
      if op == 0x76
      then (modify (λ r. record r { halted = true }) >> fail (step_error halt))
      else (read_operand (bit_and op 7) >>= write_operand (bit_and (op / 8) 7))

  -- 0x80..=0xbf.
  unfoldable pub alu_block : ℕ → M bus (Unit {0})
  alu_block op = read_operand (bit_and op 7) >>= λ v. modify (alu (bit_and (op / 8) 7) v)

  unfoldable pub alu_immediate : ℕ → M bus (Unit {0})
  alu_immediate n = fetch_byte >>= λ v. modify (alu n v)

  unfoldable pub return_to : M bus (Unit {0})
  return_to = do v ← pop_word; modify (λ r. record r { pc = v; memptr = v })

  unfoldable pub return_if : (Cpu → Bool) → M bus (Unit {0})
  unfolding return_to
  return_if test = do r ← get_cpu; if test r then return_to else pure tt

  unfoldable pub jump_if : (Cpu → Bool) → M bus (Unit {0})
  jump_if test = do
    nn ← fetch_word
    modify (λ r. if test r then record r { pc = nn } else r)
    modify (λ r. record r { memptr = nn })

  unfoldable pub call_if : (Cpu → Bool) → M bus (Unit {0})
  call_if test = do
    nn ← fetch_word
    modify (λ r. record r { memptr = nn })
    r ← get_cpu
    if test r then (push_word r.pc >> modify (λ r. record r { pc = nn })) else pure tt

  unfoldable pub call : M bus (Unit {0})
  call = do
    nn ← fetch_word
    r ← get_cpu
    push_word r.pc
    modify (λ r. record r { pc = nn; memptr = nn })

  unfoldable pub pop_pair : (ℕ → Cpu → Cpu) → M bus (Unit {0})
  pop_pair put = do v ← pop_word; modify (put v)

  unfoldable pub push_pair : (Cpu → ℕ) → M bus (Unit {0})
  push_pair pair = do r ← get_cpu; push_word (pair r)

  unfoldable pub input : M bus (Unit {0})
  input = do
    n ← fetch_byte
    r ← get_cpu
    v ← in_port n
    modify (λ q. record q { a = v; memptr = u16 (u16 (r.a * 256 + n) + 1) })

  unfoldable pub output : M bus (Unit {0})
  output = do
    n ← fetch_byte
    r ← get_cpu
    out_port n r.a
    modify (λ r. record r { memptr = bit_or (u16 (n + 1)) (r.a * 256) })

  unfoldable pub ex_sp_hl : M bus (Unit {0})
  ex_sp_hl = do
    r ← get_cpu
    lo ← read r.sp
    hi ← read (u16 (r.sp + 1))
    write r.sp r.l
    write (u16 (r.sp + 1)) r.h
    modify (λ r. record r { l = lo; h = hi; memptr = word hi lo })

  unfoldable pub transfer_arms : List (ℕ × M bus (Unit {0}))
  unfolding return_to return_if jump_if call_if call
  transfer_arms =
      (0xc0, return_if (λ r. not (flag flag_z r)))
      ∷ (0xc8, return_if (flag flag_z))
      ∷ (0xd0, return_if (λ r. not (flag flag_c r)))
      ∷ (0xd8, return_if (flag flag_c))
      ∷ (0xe0, return_if (λ r. not (flag flag_pv r)))
      ∷ (0xe8, return_if (flag flag_pv))
      ∷ (0xf0, return_if (λ r. not (flag flag_s r)))
      ∷ (0xf8, return_if (flag flag_s))
      ∷ (0xc2, jump_if (λ r. not (flag flag_z r)))
      ∷ (0xca, jump_if (flag flag_z))
      ∷ (0xd2, jump_if (λ r. not (flag flag_c r)))
      ∷ (0xda, jump_if (flag flag_c))
      ∷ (0xe2, jump_if (λ r. not (flag flag_pv r)))
      ∷ (0xea, jump_if (flag flag_pv))
      ∷ (0xf2, jump_if (λ r. not (flag flag_s r)))
      ∷ (0xfa, jump_if (flag flag_s))
      ∷ (0xc3, jump_if (λ r. true))
      ∷ (0xc4, call_if (λ r. not (flag flag_z r)))
      ∷ (0xcc, call_if (flag flag_z))
      ∷ (0xc9, return_to)
      ∷ (0xcd, call)
      ∷ (0xe9, modify (λ r. record r { pc = hl r }))
      ∷ []

  unfoldable pub other_arms : List (ℕ × M bus (Unit {0}))
  unfolding pop_pair push_pair alu_immediate input output ei di ex_de_hl exx ex_sp_hl
  other_arms =
      (0xc1, pop_pair set_bc)
      ∷ (0xd1, pop_pair set_de)
      ∷ (0xe1, pop_pair set_hl)
      ∷ (0xf1, pop_pair set_af)
      ∷ (0xc5, push_pair bc)
      ∷ (0xd5, push_pair de)
      ∷ (0xe5, push_pair hl)
      ∷ (0xf5, push_pair af)
      ∷ (0xc6, alu_immediate 0)
      ∷ (0xce, alu_immediate 1)
      ∷ (0xd6, alu_immediate 2)
      ∷ (0xde, alu_immediate 3)
      ∷ (0xe6, alu_immediate 4)
      ∷ (0xee, alu_immediate 5)
      ∷ (0xf6, alu_immediate 6)
      ∷ (0xfe, alu_immediate 7)
      ∷ (0xdb, input)
      ∷ (0xd3, output)
      ∷ (0xf3, modify di)
      ∷ (0xfb, modify ei)
      ∷ (0xeb, modify ex_de_hl)
      ∷ (0xd9, modify exx)
      ∷ (0xe3, ex_sp_hl)
      ∷ []
