-- ===== src/NesRom/Mmc1/Serial.antt =====
-- crates/nes_rom/src/mmc1.rs: the serial port.
use nes_to_sms.Base.{
  ℕ, suc, ◌+◌, ◌*◌, ◌/◌, ◌%◌, ◌^◌, ◌<◌, ◌≤◌, ltb, leb, ◌&&◌, List, [], ◌∷◌, Option, none, some, ap,
  ◌∙◌, if◌then◌else◌, bit_and, bit_or, has_bits, u8, true, false, ◌≡◌, refl, arith, bit_and_mask,
  all_below, eq_by_table, inl, inr, ◌⊎◌,
}
use nes_to_sms.NesRom.Mmc1.{Mmc1, commit, shift_in, empty_port, write_port, write_register}

-- The byte that a serial write adds is its lowest bit, above the four that stay.
shift_in_table :
    (s : ℕ) → s < 32 → (bit_or (s / 2) (0 * 16) ≡ s / 2) × (bit_or (s / 2) (1 * 16) ≡ s / 2 + 16)
unfolding all_below
shift_in_table s h = (
  eq_by_table 32 (λ (x : ℕ). bit_or (x / 2) (0 * 16)) (λ (x : ℕ). x / 2) s refl h,
  eq_by_table 32 (λ (x : ℕ). bit_or (x / 2) (1 * 16)) (λ (x : ℕ). x / 2 + 16) s refl h,
)

pub shift_in-bits : (s value : ℕ) → s < 32 → shift_in s value ≡ s / 2 + 16 * (value % 2)
unfolding shift_in
shift_in-bits s value h =
    let (zero_in, one_in) = shift_in_table s h in
    elim cases [
      | inl e ↦ rw (bit_and_mask 1 value, e, zero_in) (omega arith)
      | inr e ↦ rw (bit_and_mask 1 value, e, one_in) refl
    ]
  where
    cases : (value % 2 ≡ 0) ⊎ (value % 2 ≡ 1)
    cases = omega arith

-- A write that does not reset, and leaves the port incomplete.
partial_write :
    (addr value : ℕ) (m : Mmc1)
    → has_bits value 0x80 ≡ false
    → m.shift < 32
    → m.shift_count < 4
    → write_port addr value m
      ≡ record m { shift = m.shift / 2 + 16 * (value % 2); shift_count = suc m.shift_count }
unfolding write_port
partial_write addr value m r s c =
    let count : ltb (u8 (m.shift_count + 1)) 5 ≡ true = ground arith in
    let next : u8 (m.shift_count + 1) ≡ suc m.shift_count = omega arith in
    rw (r, count, next, shift_in-bits m.shift value s) refl

last_write :
    (addr value : ℕ) (m : Mmc1)
    → has_bits value 0x80 ≡ false
    → m.shift < 32
    → m.shift_count ≡ 4
    → write_port addr value m ≡ empty_port (commit addr (m.shift / 2 + 16 * (value % 2)) m)
unfolding write_port
last_write addr value m r s c =
    let count : ltb (u8 (m.shift_count + 1)) 5 ≡ false = ground arith in
    let mask : bit_and (shift_in m.shift value) 0x1f ≡ m.shift / 2 + 16 * (value % 2) =
      omega (arith, bit_and_mask 5 (shift_in m.shift value), shift_in-bits m.shift value s) in
    rw (r, count, mask) refl

commit-empty_port :
    (addr bits s c : ℕ) (m : Mmc1)
    → empty_port (commit addr bits (record m { shift = s; shift_count = c }))
      ≡ empty_port (commit addr bits m)
unfolding commit
commit-empty_port addr bits s c m = ground arith

reset_write :
    (addr value : ℕ) (m : Mmc1)
    → has_bits value 0x80 ≡ true
    → write_port addr value m ≡ record (empty_port m) { control = bit_or m.control 0x0c }
unfolding write_port
reset_write addr value m r = rw r refl

-- The five bits of a load, the first the lowest.
abbrev loaded : (v0 v1 v2 v3 v4 : ℕ) → ℕ
loaded v0 v1 v2 v3 v4 = v0 % 2 + 2 * (v1 % 2) + 4 * (v2 % 2) + 8 * (v3 % 2) + 16 * (v4 % 2)

abbrev held : Mmc1 → ℕ → ℕ → Mmc1
held m s c = record m { shift = s; shift_count = c }

abbrev pushed : ℕ → ℕ → ℕ
pushed s v = s / 2 + 16 * (v % 2)

abbrev Clean : ℕ → Type 0
Clean v = has_bits v 0x80 ≡ false

five_writes :
    (a0 a1 a2 a3 a4 v0 v1 v2 v3 v4 : ℕ) (m : Mmc1)
    → Clean v0
    → Clean v1
    → Clean v2
    → Clean v3
    → Clean v4
    → write_port a4 v4
        (write_port a3 v3 (write_port a2 v2 (write_port a1 v1 (write_port a0 v0 (held m 0 0)))))
      ≡ empty_port (commit a4 (loaded v0 v1 v2 v3 v4) m)
five_writes a0 a1 a2 a3 a4 v0 v1 v2 v3 v4 m k0 k1 k2 k3 k4 =
    let s1 = pushed 0 v0 in
    let s2 = pushed s1 v1 in
    let s3 = pushed s2 v2 in
    let s4 = pushed s3 v3 in
    let total : pushed s4 v4 ≡ loaded v0 v1 v2 v3 v4 = omega arith in
    rw
      (
        partial_write a0 v0 (held m 0 0) k0 (omega arith) (omega arith),
        partial_write a1 v1 (held m s1 1) k1 (omega arith) (omega arith),
        partial_write a2 v2 (held m s2 2) k2 (omega arith) (omega arith),
        partial_write a3 v3 (held m s3 3) k3 (omega arith) (omega arith),
        last_write a4 v4 (held m s4 4) k4 (omega arith) refl,
        total,
      )
      (commit-empty_port a4 (loaded v0 v1 v2 v3 v4) s4 4 m)

abbrev when_done : (Mmc1 → Option Mmc1) → Option Mmc1 → Option Mmc1
when_done f none = none
when_done f (some n) = f n

-- A sequence of writes, each an address and a value; `none` if one of them panics.
unfoldable pub writes : List (ℕ × ℕ) → Mmc1 → Option Mmc1
writes [] m = some m
writes ((addr, value) ∷ ws) m = when_done (writes ws) (write_register addr value m)

-- The addresses lie in the cartridge window.
abbrev pub InWindow : List (ℕ × ℕ) → Type 0
InWindow [] = Unit {0}
InWindow ((addr, value) ∷ ws) = (0x8000 ≤ addr) × (addr < 0x1_0000) × InWindow ws

write_register-window :
    (addr value : ℕ) (m : Mmc1)
    → 0x8000 ≤ addr
    → write_register addr value m ≡ some (write_port addr value m)
unfolding write_register
write_register-window addr value m h = ground arith

writes-nil : (m : Mmc1) → writes [] m ≡ some m
unfolding writes
writes-nil m = refl

pub writes-cons :
    (addr value : ℕ) (ws : List (ℕ × ℕ)) (m : Mmc1)
    → 0x8000 ≤ addr
    → writes ((addr, value) ∷ ws) m ≡ writes ws (write_port addr value m)
unfolding writes
writes-cons addr value ws m h = ap (when_done (writes ws)) (write_register-window addr value m h)

-- The registers by the quarters of the window.
commit-window :
    (addr bits : ℕ) (m : Mmc1)
    → 0x8000 ≤ addr
    → addr < 0x1_0000
    → commit addr bits m ≡ record m {
      control = if ltb addr 0xa000 then bits else m.control;
      chr0 = if leb 0xa000 addr && ltb addr 0xc000 then bits else m.chr0;
      chr1 = if leb 0xc000 addr && ltb addr 0xe000 then bits else m.chr1;
      prg = if leb 0xe000 addr then bits else m.prg;
    }
unfolding commit
commit-window addr bits m low high = ground (arith, bit_and_mask 2 (addr / 2 ^ 13))

-- A write with bit 7 set followed by five without it, all to the cartridge window, loads one register
-- with the lowest bits of the five values, the first the lowest bit, whatever the port held before. The
-- quarter of the window that the last address lies in selects the register: from $8000 the control,
-- from $A000 and $C000 the two CHR registers, from $E000 the PRG register. The port is empty again, and
-- but for that register only the two PRG mode bits are set.
pub reset-five_writes :
    (a a0 a1 a2 a3 a4 v v0 v1 v2 v3 v4 : ℕ) (m : Mmc1)
    → InWindow ((a, v) ∷ (a0, v0) ∷ (a1, v1) ∷ (a2, v2) ∷ (a3, v3) ∷ (a4, v4) ∷ [])
    → has_bits v 0x80 ≡ true
    → has_bits v0 0x80 ≡ false
    → has_bits v1 0x80 ≡ false
    → has_bits v2 0x80 ≡ false
    → has_bits v3 0x80 ≡ false
    → has_bits v4 0x80 ≡ false
    → let bits = v0 % 2 + 2 * (v1 % 2) + 4 * (v2 % 2) + 8 * (v3 % 2) + 16 * (v4 % 2) in
      writes ((a, v) ∷ (a0, v0) ∷ (a1, v1) ∷ (a2, v2) ∷ (a3, v3) ∷ (a4, v4) ∷ []) m
      ≡ some (record m {
        shift = 0;
        shift_count = 0;
        control = if ltb a4 0xa000 then bits else bit_or m.control 0x0c;
        chr0 = if leb 0xa000 a4 && ltb a4 0xc000 then bits else m.chr0;
        chr1 = if leb 0xc000 a4 && ltb a4 0xe000 then bits else m.chr1;
        prg = if leb 0xe000 a4 then bits else m.prg;
      })
reset-five_writes a a0 a1 a2 a3 a4 v v0 v1 v2 v3 v4 m
      (w, _, (w0, _, (w1, _, (w2, _, (w3, _, (w4, h4, _)))))) k k0 k1 k2 k3 k4 =
    rw
      (
        writes-cons a v _ m w,
        writes-cons a0 v0 _ _ w0,
        writes-cons a1 v1 _ _ w1,
        writes-cons a2 v2 _ _ w2,
        writes-cons a3 v3 _ _ w3,
        writes-cons a4 v4 _ _ w4,
        writes-nil _,
        reset_write a v m k,
      )
      (ap some (
        five_writes a0 a1 a2 a3 a4 v0 v1 v2 v3 v4 reset_board k0 k1 k2 k3 k4
        ∙ ap empty_port (commit-window a4 _ reset_board w4 h4)))
  where
    reset_board : Mmc1
    reset_board = record m { control = bit_or m.control 0x0c }
