-- ===== src/Z80Emu/Rotations.antt =====
-- crates/z80_emu/src/lib.rs: the rotations and shifts of `step_cb` against each other and against
-- arithmetic.
use nes_to_sms.Base.{
  ℕ, ◌<◌, ◌==◌, ◌≡◌, refl, arith, Bool, true, false, ◌&&◌, all_below, all_below_sound,
}
use nes_to_sms.Z80Emu.Cpu.{bit_of}
use nes_to_sms.Z80Emu.Shifts.{shift_result, shift_carry}

-- One byte, with the carry clear and set.
abbrev undone : Bool → ℕ → Bool
undone c v =
    (shift_result 1 c (shift_result 0 c v) == v && shift_result 0 c (shift_result 1 c v) == v)
    && ((shift_result 3 (shift_carry 2 v) (shift_result 2 c v) == v
          && bit_of (shift_carry 3 (shift_result 2 c v)) == bit_of c)
        && (shift_result 2 (shift_carry 3 v) (shift_result 3 c v) == v
            && bit_of (shift_carry 2 (shift_result 3 c v)) == bit_of c))

undone_table : all_below 256 (λ v. undone true v && undone false v) ≡ true
unfolding all_below shift_result shift_carry
undone_table = refl

undone_byte : (c : Bool) (v : ℕ) → v < 256 → undone c v ≡ true
undone_byte true v h =
    let here = all_below_sound 256 (λ w. undone true w && undone false w) v undone_table h in
    ground (arith, here)
undone_byte false v h =
    let here = all_below_sound 256 (λ w. undone true w && undone false w) v undone_table h in
    ground (arith, here)

-- For each byte and carry, RRC undoes RLC and RLC undoes RRC, and RR undoes RL and RL undoes RR on
-- the nine bits of the byte and the carry.
pub shift_result-inverse :
    (c : Bool) (v : ℕ)
    → v < 256
    → (shift_result 1 c (shift_result 0 c v) ≡ v)
      × (shift_result 0 c (shift_result 1 c v) ≡ v)
      × (shift_result 3 (shift_carry 2 v) (shift_result 2 c v) ≡ v)
      × (bit_of (shift_carry 3 (shift_result 2 c v)) ≡ bit_of c)
      × (shift_result 2 (shift_carry 3 v) (shift_result 3 c v) ≡ v)
      × (bit_of (shift_carry 2 (shift_result 3 c v)) ≡ bit_of c)
shift_result-inverse c v h = ground (arith, undone_byte c v h)
