-- ===== src/Z80Emu/Low.antt =====
-- crates/z80_emu/src/lib.rs: the match arms of `step` for the opcodes below 0x40.
use nes_to_sms.Base.{
  ℕ, ◌+◌, ◌*◌, ◌/◌, ◌==◌, ltb, u8, u16, not8, has_bits, bit_and, bit_or, Bool, true, false, not,
  List, [], ◌∷◌, if◌then◌else◌,
}
use nes_to_sms.Z80Emu.Cpu.{
  Cpu, flag_c, flag_h, flag_n, flag_z, word, high, bc, de, hl, set_bc, set_de, set_hl, flag,
  set_flag, set_undoc, do_inc, do_dec,
}
use nes_to_sms.Z80Emu.Machine.{
  Bus, M, pure, ◌>>=◌, ◌>>◌, get_cpu, modify, read, write, fetch_byte, fetch_word,
}

-- A signed byte as a 16-bit addend.
abbrev pub sign_extend : ℕ → ℕ
sign_extend b = if ltb b 128 then b else b + 65280

-- The memory pointer after a store of the accumulator through BC or DE.
unfoldable pub stored_memptr : ℕ → ℕ → ℕ
stored_memptr addr a = bit_or (bit_and (u16 (addr + 1)) 0x00ff) (a * 256)

unfoldable pub add_hl : (Cpu → ℕ) → Cpu → Cpu
add_hl pair r =
    let sum = hl r + pair r in
    let half = ltb 0x0fff (bit_and (hl r) 0x0fff + bit_and (pair r) 0x0fff) in
    set_undoc (bit_and (sum / 256) 0xff) (
      set_flag flag_n false (
        set_flag flag_h half (
          set_flag flag_c (ltb 0xffff sum)
            (set_hl (bit_and sum 0xffff) (record r { memptr = u16 (hl r + 1) })))))

-- RLCA, RRCA, RLA and RRA: the new accumulator and the carry out of the old one.
unfoldable pub rotate_a : (Bool → ℕ → ℕ) → (ℕ → Bool) → Cpu → Cpu
rotate_a rotated carry r =
    let a = rotated (flag flag_c r) r.a in
    set_undoc a (
      set_flag flag_n false
        (set_flag flag_h false (set_flag flag_c (carry r.a) (record r { a = a }))))

abbrev pub out_left : ℕ → Bool
out_left a = has_bits a 0x80

abbrev pub out_right : ℕ → Bool
out_right a = has_bits a 0x01

unfoldable pub rlca : Cpu → Cpu
unfolding rotate_a
rlca = rotate_a (λ c a. bit_or (u8 (a * 2)) (if out_left a then 1 else 0)) out_left

unfoldable pub rrca : Cpu → Cpu
unfolding rotate_a
rrca = rotate_a (λ c a. bit_or (a / 2) (if out_right a then 0x80 else 0)) out_right

unfoldable pub rla : Cpu → Cpu
unfolding rotate_a
rla = rotate_a (λ c a. bit_or (u8 (a * 2)) (if c then 1 else 0)) out_left

unfoldable pub rra : Cpu → Cpu
unfolding rotate_a
rra = rotate_a (λ c a. bit_or (a / 2) (if c then 0x80 else 0)) out_right

unfoldable pub scf : Cpu → Cpu
scf r = set_undoc r.a (set_flag flag_n false (set_flag flag_h false (set_flag flag_c true r)))

unfoldable pub ccf : Cpu → Cpu
ccf r =
    let old_c = flag flag_c r in
    set_undoc r.a (set_flag flag_n false (set_flag flag_c (not old_c) (set_flag flag_h old_c r)))

unfoldable pub cpl : Cpu → Cpu
cpl r = set_flag flag_n true (set_flag flag_h true (record r { a = not8 r.a }))

unfoldable pub ex_af : Cpu → Cpu
ex_af r = record r { a = high r.af_shadow; f = bit_and r.af_shadow 0xff; af_shadow = word r.a r.f }

module _ {bus : Bus} where
  unfoldable pub load_pair : (ℕ → Cpu → Cpu) → M bus (Unit {0})
  load_pair put = do nn ← fetch_word; modify (put nn)

  unfoldable pub load_byte : (ℕ → Cpu → Cpu) → M bus (Unit {0})
  load_byte put = do n ← fetch_byte; modify (put n)

  unfoldable pub store_a : (Cpu → ℕ) → M bus (Unit {0})
  store_a pair = do
    r ← get_cpu
    write (pair r) r.a
    modify (λ r. record r { memptr = stored_memptr (pair r) r.a })

  unfoldable pub load_a : (Cpu → ℕ) → M bus (Unit {0})
  load_a pair = do
    r ← get_cpu
    v ← read (pair r)
    modify (λ r. record r { a = v; memptr = u16 (pair r + 1) })

  unfoldable pub store_hl_abs : M bus (Unit {0})
  store_hl_abs = do
    nn ← fetch_word
    r ← get_cpu
    write nn r.l
    write (u16 (nn + 1)) r.h
    modify (λ r. record r { memptr = u16 (nn + 1) })

  unfoldable pub load_hl_abs : M bus (Unit {0})
  load_hl_abs = do
    nn ← fetch_word
    lo ← read nn
    hi ← read (u16 (nn + 1))
    modify (λ r. record r { l = lo; h = hi; memptr = u16 (nn + 1) })

  -- The source keeps the whole of `nn + 1` in the memory pointer here.
  unfoldable pub store_a_abs : M bus (Unit {0})
  store_a_abs = do
    nn ← fetch_word
    r ← get_cpu
    write nn r.a
    modify (λ r. record r { memptr = bit_or (u16 (nn + 1)) (r.a * 256) })

  unfoldable pub load_a_abs : M bus (Unit {0})
  load_a_abs = do
    nn ← fetch_word
    v ← read nn
    modify (λ r. record r { a = v; memptr = u16 (nn + 1) })

  -- INC and DEC of the byte at HL.
  unfoldable pub step_at_hl : (ℕ → Cpu → ℕ × Cpu) → M bus (Unit {0})
  step_at_hl f = do r ← get_cpu; v ← read (hl r); modify (λ r. (f v r).1); write (hl r) (f v r).0

  unfoldable pub store_byte : M bus (Unit {0})
  store_byte = do n ← fetch_byte; r ← get_cpu; write (hl r) n

  -- A relative jump where the test holds.
  unfoldable pub jump_relative : (Cpu → Bool) → M bus (Unit {0})
  jump_relative test = do
    e ← fetch_byte
    modify (λ r.
        let target = u16 (r.pc + sign_extend e) in
        if test r then record r { pc = target; memptr = target } else r)

  unfoldable pub djnz : M bus (Unit {0})
  djnz = do
    e ← fetch_byte
    modify (λ r. record r { b = u8 (r.b + 255) })
    modify (λ r.
        let target = u16 (r.pc + sign_extend e) in
        if not (r.b == 0) then record r { pc = target; memptr = target } else r)

  unfoldable pub load_arms : List (ℕ × M bus (Unit {0}))
  unfolding load_pair load_byte store_a load_a store_hl_abs load_hl_abs store_a_abs load_a_abs
      store_byte
  load_arms =
      (0x00, pure tt)
      ∷ (0x01, load_pair set_bc)
      ∷ (0x11, load_pair set_de)
      ∷ (0x21, load_pair set_hl)
      ∷ (0x31, load_pair (λ v r. record r { sp = v }))
      ∷ (0x02, store_a bc)
      ∷ (0x0a, load_a bc)
      ∷ (0x12, store_a de)
      ∷ (0x1a, load_a de)
      ∷ (0x22, store_hl_abs)
      ∷ (0x2a, load_hl_abs)
      ∷ (0x32, store_a_abs)
      ∷ (0x3a, load_a_abs)
      ∷ (0x36, store_byte)
      ∷ (0x06, load_byte (λ v r. record r { b = v }))
      ∷ (0x0e, load_byte (λ v r. record r { c = v }))
      ∷ (0x16, load_byte (λ v r. record r { d = v }))
      ∷ (0x1e, load_byte (λ v r. record r { e = v }))
      ∷ (0x26, load_byte (λ v r. record r { h = v }))
      ∷ (0x2e, load_byte (λ v r. record r { l = v }))
      ∷ (0x3e, load_byte (λ v r. record r { a = v }))
      ∷ []

  unfoldable pub step_arms : List (ℕ × M bus (Unit {0}))
  unfolding step_at_hl
  step_arms =
      (0x03, modify (λ r. set_bc (u16 (bc r + 1)) r))
      ∷ (0x13, modify (λ r. set_de (u16 (de r + 1)) r))
      ∷ (0x23, modify (λ r. set_hl (u16 (hl r + 1)) r))
      ∷ (0x33, modify (λ r. record r { sp = u16 (r.sp + 1) }))
      ∷ (0x0b, modify (λ r. set_bc (u16 (bc r + 65535)) r))
      ∷ (0x1b, modify (λ r. set_de (u16 (de r + 65535)) r))
      ∷ (0x2b, modify (λ r. set_hl (u16 (hl r + 65535)) r))
      ∷ (0x3b, modify (λ r. record r { sp = u16 (r.sp + 65535) }))
      ∷ (0x04, modify (λ r. record (do_inc r.b r).1 { b = (do_inc r.b r).0 }))
      ∷ (0x0c, modify (λ r. record (do_inc r.c r).1 { c = (do_inc r.c r).0 }))
      ∷ (0x14, modify (λ r. record (do_inc r.d r).1 { d = (do_inc r.d r).0 }))
      ∷ (0x1c, modify (λ r. record (do_inc r.e r).1 { e = (do_inc r.e r).0 }))
      ∷ (0x24, modify (λ r. record (do_inc r.h r).1 { h = (do_inc r.h r).0 }))
      ∷ (0x2c, modify (λ r. record (do_inc r.l r).1 { l = (do_inc r.l r).0 }))
      ∷ (0x3c, modify (λ r. record (do_inc r.a r).1 { a = (do_inc r.a r).0 }))
      ∷ (0x05, modify (λ r. record (do_dec r.b r).1 { b = (do_dec r.b r).0 }))
      ∷ (0x0d, modify (λ r. record (do_dec r.c r).1 { c = (do_dec r.c r).0 }))
      ∷ (0x15, modify (λ r. record (do_dec r.d r).1 { d = (do_dec r.d r).0 }))
      ∷ (0x1d, modify (λ r. record (do_dec r.e r).1 { e = (do_dec r.e r).0 }))
      ∷ (0x25, modify (λ r. record (do_dec r.h r).1 { h = (do_dec r.h r).0 }))
      ∷ (0x2d, modify (λ r. record (do_dec r.l r).1 { l = (do_dec r.l r).0 }))
      ∷ (0x3d, modify (λ r. record (do_dec r.a r).1 { a = (do_dec r.a r).0 }))
      ∷ (0x34, step_at_hl do_inc)
      ∷ (0x35, step_at_hl do_dec)
      ∷ []

  unfoldable pub flow_arms : List (ℕ × M bus (Unit {0}))
  unfolding jump_relative djnz rlca rrca rla rra scf ccf cpl ex_af add_hl
  flow_arms =
      (0x07, modify rlca)
      ∷ (0x0f, modify rrca)
      ∷ (0x17, modify rla)
      ∷ (0x1f, modify rra)
      ∷ (0x09, modify (add_hl bc))
      ∷ (0x19, modify (add_hl de))
      ∷ (0x29, modify (add_hl hl))
      ∷ (0x39, modify (add_hl (λ r. r.sp)))
      ∷ (0x10, djnz)
      ∷ (0x18, jump_relative (λ r. true))
      ∷ (0x20, jump_relative (λ r. not (flag flag_z r)))
      ∷ (0x28, jump_relative (flag flag_z))
      ∷ (0x30, jump_relative (λ r. not (flag flag_c r)))
      ∷ (0x38, jump_relative (flag flag_c))
      ∷ (0x37, modify scf)
      ∷ (0x3f, modify ccf)
      ∷ (0x2f, modify cpl)
      ∷ (0x08, modify ex_af)
      ∷ []
