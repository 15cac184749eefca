-- ===== src/Z80Emu/Shifts.antt =====
-- crates/z80_emu/src/lib.rs: `step_cb`, the rotations, shifts and single bits.
use nes_to_sms.Base.{
  ℕ, ◌*◌, ◌/◌, ◌^◌, ◌==◌, u8, not8, has_bits, bit_and, bit_or, Bool, true, false, not, ◌&&◌, ◌||◌,
  if◌then◌else◌,
}
use nes_to_sms.Z80Emu.Cpu.{
  flag_c, flag_h, flag_n, flag_pv, flag_s, flag_z, flag, put_flag, undoc, bit_of, high, parity,
}
use nes_to_sms.Z80Emu.Machine.{
  Bus, M, panic, fail, ◌>>=◌, ◌>>◌, get_cpu, modify, fetch_byte, read_operand, write_operand,
}

-- The result of rotation or shift `n` on a byte with the carry flag `c_in`.
unfoldable pub shift_result : ℕ → Bool → ℕ → ℕ
shift_result n c_in val =
    if n == 0
    then bit_or (u8 (val * 2)) (val / 128)
    else (if n == 1
        then bit_or (val / 2) (u8 (val * 128))
        else (if n == 2
            then bit_or (u8 (val * 2)) (bit_of c_in)
            else (if n == 3
                then bit_or (val / 2) (if c_in then 0x80 else 0)
                else (if n == 4
                    then u8 (val * 2)
                    else (if n == 5
                        then bit_or (val / 2) (bit_and val 0x80)
                        else (if n == 6 then bit_or (u8 (val * 2)) 1 else val / 2))))))

-- The carry that it moves out: bit 7 on the way left, bit 0 on the way right.
unfoldable pub shift_carry : ℕ → ℕ → Bool
shift_carry n val =
    if n == 0 || (n == 2 || (n == 4 || n == 6)) then has_bits val 0x80 else has_bits val 0x01

unfoldable pub shift_flags : ℕ → Bool → ℕ
shift_flags result carry_out = undoc result (
    put_flag flag_c carry_out (
      put_flag flag_pv (parity result)
        (put_flag flag_z (result == 0) (put_flag flag_s (has_bits result 0x80) 0))))

-- BIT n: the tested bit into Z and PV, the source of flags 5 and 3 in `shown`.
unfoldable pub bit_flags : ℕ → ℕ → ℕ → ℕ → ℕ
bit_flags n val shown f =
    let z = bit_and (val / 2 ^ n) 1 == 0 in
    undoc shown (
      put_flag flag_pv z (
        put_flag flag_s (n == 7 && not z)
          (put_flag flag_n false (put_flag flag_h true (put_flag flag_z z f)))))

module _ {bus : Bus} where
  unfoldable pub rotate_or_shift : ℕ → ℕ → ℕ → M bus (Unit {0})
  rotate_or_shift n r val = do
    c ← get_cpu
    let result = shift_result n (flag flag_c c) val
    modify (λ c. record c { f = shift_flags result (shift_carry n val) })
    write_operand r result

  unfoldable pub test_bit : ℕ → ℕ → ℕ → M bus (Unit {0})
  test_bit n r val =
      modify (λ c. record c { f = bit_flags n val (if r == 6 then high c.memptr else val) c.f })

  -- The category in the two highest bits, `n` in the next three, the register in the last.
  unfoldable pub step_cb : M bus (Unit {0})
  unfolding rotate_or_shift test_bit
  step_cb = do
    op ← fetch_byte
    let r = bit_and op 7
    let n = bit_and (op / 8) 7
    let cat = op / 64
    val ← read_operand r
    if cat == 0
        then rotate_or_shift n r val
        else (if cat == 1
            then test_bit n r val
            else (if cat == 2
                then write_operand r (bit_and val (not8 (2 ^ n)))
                else (if cat == 3 then write_operand r (bit_or val (2 ^ n)) else fail panic)))
