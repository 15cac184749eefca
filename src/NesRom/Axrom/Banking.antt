-- ===== src/NesRom/Axrom/Banking.antt =====
-- crates/nes_rom/src/axrom.rs: an AxROM board stays in its PRG.
use nes_to_sms.Base.{
  ℕ, ◌+◌, ◌-◌, ◌*◌, ◌/◌, ◌%◌, ◌^◌, ◌==◌, ◌<◌, ◌≤◌, leb, u8, not, ◌&&◌, ◌||◌, List, [], ◌∷◌, some,
  ok, refuse_if-eq-ok, ok-injective, is_power_of_two, ◌≡◌, ap, sym, ◌∙◌, arith,
}
use native.Mathlib.Nat.{mod-lt}
use nes_to_sms.NesRom.Header.{Header, is_four_screen, prg_len, chr_len}
use nes_to_sms.NesRom.Banks.{byte_count-power}
use nes_to_sms.NesRom.Axrom.{prg_window_size, Axrom, new, write_register, cpu_to_prg_offset}

-- A board with `len` bytes of PRG.
pub record IsAxrom (len : ℕ) (a : Axrom) : Type 0 where
  pub covered : len ≡ a.bank_count * prg_window_size
  pub selected : a.bank < a.bank_count
  pub power : (j : ℕ) × (j < 8) × (a.bank_count ≡ 2 ^ j) × (a.bank_count ≤ 8)

pub writes : List (ℕ × ℕ) → Axrom → Axrom
writes [] a = a
writes ((addr, value) ∷ ws) a = writes ws (write_register addr value a)

new-IsAxrom :
    (h : Header) (len : ℕ) {a : Axrom} → new h len ≡ ok a → (prg_len h ≡ len) × IsAxrom len a
unfolding new
new-IsAxrom h len e =
    let (m, e1) = refuse_if-eq-ok (not (h.mapper == 7)) _ _ e in
    let (t, e2) = refuse_if-eq-ok (h.has_trainer) _ _ e1 in
    let (f, e3) = refuse_if-eq-ok (is_four_screen h.mirroring) _ _ e2 in
    let (c, e4) = refuse_if-eq-ok (not (chr_len h == 0)) _ _ e3 in
    let (layout, e5) =
      refuse_if-eq-ok (not (len % prg_window_size == 0) || not (is_power_of_two len)) _ _ e4 in
    let (range, e6) =
      refuse_if-eq-ok
        (not (leb 1 (u8 (len / prg_window_size)) && leb (u8 (len / prg_window_size)) 8)) _ _ e5 in
    let (payload, e7) = refuse_if-eq-ok (not (prg_len h == len)) _ _ e6 in
    let (j, small, covered, count) =
      byte_count-power 15 len (ground arith) (ground arith) (ground arith) in
    (
      ground arith,
      rw (sym (ok-injective e7)) (record {
        covered = covered ∙ ap (λ (t : ℕ). t * prg_window_size) (sym count);
        selected = ground arith;
        power = (j, small, count, ground arith);
      }),
    )

write_register-IsAxrom :
    (addr value : ℕ) {len : ℕ} {a : Axrom}
    → IsAxrom len a
    → IsAxrom len (write_register addr value a)
unfolding write_register
write_register-IsAxrom addr value {len} {a} i = record {
  covered = i.covered;
  selected = mod-lt value (omega (arith, i.selected));
  power = i.power;
}

writes-IsAxrom :
    (ws : List (ℕ × ℕ)) {len : ℕ} {a : Axrom} → IsAxrom len a → IsAxrom len (writes ws a)
unfolding writes
writes-IsAxrom [] i = i
writes-IsAxrom ((addr, value) ∷ ws) i = writes-IsAxrom ws (write_register-IsAxrom addr value i)

-- On a board that `new` accepts for a PRG of some length, after any sequence of register writes,
-- every address of the cartridge window has an offset, and it lies in the PRG.
pub new-writes-cpu_to_prg_offset :
    (h : Header) (len : ℕ) {a : Axrom} (ws : List (ℕ × ℕ)) (addr : ℕ)
    → new h len ≡ ok a
    → 0x8000 ≤ addr
    → addr < 65536
    → (o : ℕ) × (cpu_to_prg_offset (writes ws a) addr ≡ some o) × (o < len)
unfolding cpu_to_prg_offset
new-writes-cpu_to_prg_offset h len {a} ws addr e low high =
    let i = writes-IsAxrom ws ((new-IsAxrom h len e).1) in
    (
      (writes ws a).bank * prg_window_size + (addr - 0x8000),
      ground arith,
      omega (arith, i.covered, i.selected),
    )
