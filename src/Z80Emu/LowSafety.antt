-- ===== src/Z80Emu/LowSafety.antt =====
-- crates/z80_emu/src/lib.rs: the arms below 0x40 keep the machine well formed.
use nes_to_sms.Base.{ℕ, ◌+◌, ◌*◌, ◌<◌, arith, Bool, true, not, u16, bit_or-lt}
use nes_to_sms.Z80Emu.Cpu.{Cpu, flag, flag_c, flag_z, bc, de, hl, do_inc, do_dec}
use nes_to_sms.Z80Emu.Machine.{Bus}
use nes_to_sms.Z80Emu.Bounds.{IsCpu, do_inc-IsCpu, do_dec-IsCpu}
use nes_to_sms.Z80Emu.Registers.{
  add_hl-IsCpu, rlca-IsCpu, rrca-IsCpu, rla-IsCpu, rra-IsCpu, scf-IsCpu, ccf-IsCpu, cpl-IsCpu,
  ex_af-IsCpu, stored_memptr-lt,
}
use nes_to_sms.Z80Emu.Low.{
  load_pair, load_byte, store_a, load_a, store_hl_abs, load_hl_abs, store_a_abs, load_a_abs,
  step_at_hl, store_byte, jump_relative, djnz, load_arms, step_arms, flow_arms,
}
use nes_to_sms.Z80Emu.Hoare.{
  ByteBus, Safe, ArmsSafe, no_arms, ◌⊳◌, Any, pure-Safe, bind-Safe, then-Safe, get_cpu-Safe,
  modify-Safe, read-Safe, write-Safe, fetch_byte-Safe, fetch_word-Safe,
}

module _ {bus : Bus} {laws : ByteBus bus} where
  load_pair-Safe :
      (put : ℕ → Cpu → Cpu)
      → ((v : ℕ) (r : Cpu) → v < 65536 → IsCpu r → IsCpu (put v r))
      → Safe laws Any (load_pair put)
  unfolding load_pair
  load_pair-Safe put k = bind-Safe fetch_word-Safe λ v hv. modify-Safe λ r h. k v r hv h

  load_byte-Safe :
      (put : ℕ → Cpu → Cpu)
      → ((v : ℕ) (r : Cpu) → v < 256 → IsCpu r → IsCpu (put v r))
      → Safe laws Any (load_byte put)
  unfolding load_byte
  load_byte-Safe put k = bind-Safe fetch_byte-Safe λ v hv. modify-Safe λ r h. k v r hv h

  store_a-Safe : (pair : Cpu → ℕ) → Safe laws Any (store_a pair)
  unfolding store_a
  store_a-Safe pair = bind-Safe get_cpu-Safe λ r hr.
      then-Safe (write-Safe _ r.a hr.a_lt)
        (modify-Safe λ r h. ground (arith, stored_memptr-lt (pair r) r.a h.a_lt))

  load_a-Safe : (pair : Cpu → ℕ) → Safe laws Any (load_a pair)
  unfolding load_a
  load_a-Safe pair =
      bind-Safe get_cpu-Safe λ r hr. bind-Safe (read-Safe _) λ v hv. modify-Safe λ r h. ground arith

  store_hl_abs-Safe : Safe laws Any store_hl_abs
  unfolding store_hl_abs
  store_hl_abs-Safe = bind-Safe fetch_word-Safe λ nn hn. bind-Safe get_cpu-Safe λ r hr.
      then-Safe (write-Safe nn r.l hr.l_lt)
        (then-Safe (write-Safe _ r.h hr.h_lt) (modify-Safe λ r h. ground arith))

  load_hl_abs-Safe : Safe laws Any load_hl_abs
  unfolding load_hl_abs
  load_hl_abs-Safe = bind-Safe fetch_word-Safe λ nn hn.
      bind-Safe (read-Safe nn)
        λ lo hl. bind-Safe (read-Safe _) λ hi hh. modify-Safe λ r h. ground arith

  store_a_abs-Safe : Safe laws Any store_a_abs
  unfolding store_a_abs
  store_a_abs-Safe = bind-Safe fetch_word-Safe λ nn hn. bind-Safe get_cpu-Safe λ r hr.
      then-Safe (write-Safe nn r.a hr.a_lt) (
        modify-Safe λ r h.
          ground
            (arith, bit_or-lt 16 (u16 (nn + 1)) (r.a * 256) (omega arith) (omega (arith, h.a_lt))))

  load_a_abs-Safe : Safe laws Any load_a_abs
  unfolding load_a_abs
  load_a_abs-Safe =
      bind-Safe fetch_word-Safe
        λ nn hn. bind-Safe (read-Safe nn) λ v hv. modify-Safe λ r h. ground arith

  step_at_hl-Safe :
      (f : ℕ → Cpu → ℕ × Cpu)
      → ((v : ℕ) (r : Cpu) → IsCpu r → IsCpu (f v r).1)
      → ((v : ℕ) (r : Cpu) → (f v r).0 < 256)
      → Safe laws Any (step_at_hl f)
  unfolding step_at_hl
  step_at_hl-Safe f k b = bind-Safe get_cpu-Safe λ r hr.
      bind-Safe (read-Safe _)
        λ v hv. then-Safe (modify-Safe λ q h. k v q h) (write-Safe _ _ (b v r))

  store_byte-Safe : Safe laws Any store_byte
  unfolding store_byte
  store_byte-Safe =
      bind-Safe fetch_byte-Safe λ n hn. bind-Safe get_cpu-Safe λ r hr. write-Safe _ n hn

  jump_relative-Safe : (test : Cpu → Bool) → Safe laws Any (jump_relative test)
  unfolding jump_relative
  jump_relative-Safe test = bind-Safe fetch_byte-Safe λ e he. modify-Safe λ r h. ground arith

  djnz-Safe : Safe laws Any djnz
  unfolding djnz
  djnz-Safe =
      bind-Safe fetch_byte-Safe
        λ e he. then-Safe (modify-Safe λ r h. ground arith) (modify-Safe λ r h. ground arith)

module _ {bus : Bus} where
  pub load_arms-Safe : (laws : ByteBus bus) → ArmsSafe laws load_arms
  unfolding load_arms
  load_arms-Safe laws =
      pure-Safe tt tt
      ⊳ load_pair-Safe _ (λ v r hv h. ground arith)
      ⊳ load_pair-Safe _ (λ v r hv h. ground arith)
      ⊳ load_pair-Safe _ (λ v r hv h. ground arith)
      ⊳ load_pair-Safe _ (λ v r hv h. ground arith)
      ⊳ store_a-Safe bc
      ⊳ load_a-Safe bc
      ⊳ store_a-Safe de
      ⊳ load_a-Safe de
      ⊳ store_hl_abs-Safe
      ⊳ load_hl_abs-Safe
      ⊳ store_a_abs-Safe
      ⊳ load_a_abs-Safe
      ⊳ store_byte-Safe
      ⊳ load_byte-Safe _ (λ v r hv h. ground arith)
      ⊳ load_byte-Safe _ (λ v r hv h. ground arith)
      ⊳ load_byte-Safe _ (λ v r hv h. ground arith)
      ⊳ load_byte-Safe _ (λ v r hv h. ground arith)
      ⊳ load_byte-Safe _ (λ v r hv h. ground arith)
      ⊳ load_byte-Safe _ (λ v r hv h. ground arith)
      ⊳ load_byte-Safe _ (λ v r hv h. ground arith)
      ⊳ no_arms

  -- A register that takes the place of the number it is stepped to.
  pub step_arms-Safe : (laws : ByteBus bus) → ArmsSafe laws step_arms
  unfolding step_arms
  step_arms-Safe laws =
      modify-Safe (λ r h. ground arith)
      ⊳ modify-Safe (λ r h. ground arith)
      ⊳ modify-Safe (λ r h. ground arith)
      ⊳ modify-Safe (λ r h. ground arith)
      ⊳ modify-Safe (λ r h. ground arith)
      ⊳ modify-Safe (λ r h. ground arith)
      ⊳ modify-Safe (λ r h. ground arith)
      ⊳ modify-Safe (λ r h. ground arith)
      ⊳ modify-Safe (λ r h. ground (arith, do_inc-IsCpu r.b r h))
      ⊳ modify-Safe (λ r h. ground (arith, do_inc-IsCpu r.c r h))
      ⊳ modify-Safe (λ r h. ground (arith, do_inc-IsCpu r.d r h))
      ⊳ modify-Safe (λ r h. ground (arith, do_inc-IsCpu r.e r h))
      ⊳ modify-Safe (λ r h. ground (arith, do_inc-IsCpu r.h r h))
      ⊳ modify-Safe (λ r h. ground (arith, do_inc-IsCpu r.l r h))
      ⊳ modify-Safe (λ r h. ground (arith, do_inc-IsCpu r.a r h))
      ⊳ modify-Safe (λ r h. ground (arith, do_dec-IsCpu r.b r h))
      ⊳ modify-Safe (λ r h. ground (arith, do_dec-IsCpu r.c r h))
      ⊳ modify-Safe (λ r h. ground (arith, do_dec-IsCpu r.d r h))
      ⊳ modify-Safe (λ r h. ground (arith, do_dec-IsCpu r.e r h))
      ⊳ modify-Safe (λ r h. ground (arith, do_dec-IsCpu r.h r h))
      ⊳ modify-Safe (λ r h. ground (arith, do_dec-IsCpu r.l r h))
      ⊳ modify-Safe (λ r h. ground (arith, do_dec-IsCpu r.a r h))
      ⊳ step_at_hl-Safe do_inc do_inc-IsCpu (λ v r. omega arith)
      ⊳ step_at_hl-Safe do_dec do_dec-IsCpu (λ v r. omega arith)
      ⊳ no_arms

  pub flow_arms-Safe : (laws : ByteBus bus) → ArmsSafe laws flow_arms
  unfolding flow_arms
  flow_arms-Safe laws =
      modify-Safe rlca-IsCpu
      ⊳ modify-Safe rrca-IsCpu
      ⊳ modify-Safe rla-IsCpu
      ⊳ modify-Safe rra-IsCpu
      ⊳ modify-Safe (add_hl-IsCpu bc)
      ⊳ modify-Safe (add_hl-IsCpu de)
      ⊳ modify-Safe (add_hl-IsCpu hl)
      ⊳ modify-Safe (add_hl-IsCpu (λ r. r.sp))
      ⊳ djnz-Safe
      ⊳ jump_relative-Safe (λ r. true)
      ⊳ jump_relative-Safe (λ r. not (flag flag_z r))
      ⊳ jump_relative-Safe (flag flag_z)
      ⊳ jump_relative-Safe (λ r. not (flag flag_c r))
      ⊳ jump_relative-Safe (flag flag_c)
      ⊳ modify-Safe scf-IsCpu
      ⊳ modify-Safe ccf-IsCpu
      ⊳ modify-Safe cpl-IsCpu
      ⊳ modify-Safe ex_af-IsCpu
      ⊳ no_arms
