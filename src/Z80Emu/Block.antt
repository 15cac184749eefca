-- ===== src/Z80Emu/Block.antt =====
-- crates/z80_emu/src/lib.rs: the block instructions, from the arm of LDI to that of INDR. One that
-- repeats moves the program counter back to itself.
use nes_to_sms.Base.{ℕ, ◌+◌, ◌==◌, u8, u16, Bool, true, false, not, ◌&&◌, if◌then◌else◌}
use nes_to_sms.Z80Emu.Cpu.{
  Cpu, flag_h, flag_n, flag_pv, flag_z, bc, de, hl, set_bc, set_de, set_hl, set_flag,
}
use nes_to_sms.Z80Emu.Machine.{Bus, M, ◌>>=◌, ◌>>◌, get_cpu, modify, read, write, in_port, out_port}

-- The end of an iteration, which repeats where the test holds.
unfoldable pub repeat_if : Bool → Cpu → Cpu
repeat_if again r =
    if again
    then record r { pc = u16 (r.pc + 65534); cycles = r.cycles + 7 }
    else record r { cycles = r.cycles + 2 }

-- The registers after a byte was copied; `step` is added to both pointers.
unfoldable pub copied : ℕ → Bool → Cpu → Cpu
unfolding repeat_if
copied step repeats r =
    let count = u16 (bc r + 65535) in
    repeat_if (repeats && not (count == 0)) (
      set_flag flag_pv (not (count == 0)) (
        set_flag flag_h false (
          set_flag flag_n false
            (set_bc count (set_de (u16 (de r + step)) (set_hl (u16 (hl r + step)) r))))))

-- The registers after a byte went through the port.
unfoldable pub counted : ℕ → Bool → Cpu → Cpu
unfolding repeat_if
counted step repeats r =
    let count = u8 (r.b + 255) in
    repeat_if (repeats && not (count == 0)) (
      set_flag flag_z (count == 0)
        (set_flag flag_n true (record (set_hl (u16 (hl r + step)) r) { b = count })))

module _ {bus : Bus} where
  -- LDI and LDIR with a step of 1, LDD and LDDR with one of -1.
  unfoldable pub copy_block : ℕ → Bool → M bus (Unit {0})
  unfolding copied
  copy_block step repeats = do
    r ← get_cpu
    byte ← read (hl r)
    write (de r) byte
    modify (copied step repeats)

  -- OUTI, OTIR, OUTD and OTDR: the memory pointer comes from the decremented counter.
  unfoldable pub out_block : ℕ → Bool → M bus (Unit {0})
  unfolding counted
  out_block step repeats = do
    r ← get_cpu
    val ← read (hl r)
    out_port r.c val
    modify (λ r.
        counted step repeats
          (record r { memptr = u16 (bc (record r { b = u8 (r.b + 255) }) + step) }))

  -- INI, INIR, IND and INDR: the memory pointer comes from the counter before.
  unfoldable pub in_block : ℕ → Bool → M bus (Unit {0})
  unfolding counted
  in_block step repeats = do
    r ← get_cpu
    val ← in_port r.c
    write (hl r) val
    modify (λ r. counted step repeats (record r { memptr = u16 (bc r + step) }))
