-- ===== src/NesRom/Mmc1/Banking.antt =====
-- crates/nes_rom/src/mmc1.rs: an MMC1 board stays in its PRG and CHR.
use nes_to_sms.Base.{
  ℕ, zero, suc, ◌+◌, ◌*◌, ◌/◌, ◌%◌, ◌^◌, ◌==◌, ◌<◌, ◌≤◌, ltb, leb, bit_and, not8, has_bits, u8,
  false, not, ◌&&◌, ◌||◌, List, [], ◌∷◌, some, ok, is_power_of_two, ◌≡◌, refl, sym, ◌∙◌, arith,
  if-both, bit_and_mask, bit_and-lt, bit_or-lt, refuse_if-eq-ok, ok-injective, >>=-eq-ok, all_below,
  lt_by_table,
}
use native.Mathlib.Nat.{mod-lt}
use nes_to_sms.NesRom.Header.{Header, is_nes2, is_four_screen, prg_len, chr_len, prg_bank_size}
use nes_to_sms.NesRom.Banks.{byte_count-power}
use nes_to_sms.NesRom.Windows.{IsBanks, IsBanks-lt, two, four, eight, sixteen}
use nes_to_sms.NesRom.Mmc1.{
  Mmc1, chr_banks_4k, at_power_on, with_prg, new, commit, shift_in, empty_port, write_port, bank16,
  cpu_to_prg_offset,
}
use nes_to_sms.NesRom.Mmc1.Serial.{shift_in-bits, writes, InWindow, writes-cons}

-- A board with `len` bytes of PRG, whose registers have five bits.
abbrev pub IsMmc1 : ℕ → Mmc1 → Type 0
IsMmc1 len m =
    IsBanks m.prg_bank_count
    × (len ≡ m.prg_bank_count * prg_bank_size)
    × (m.shift < 32)
    × (m.control < 32)
    × (m.chr0 < 32)
    × (m.chr1 < 32)
    × (m.prg < 32)

commit-IsMmc1 :
    (addr bits : ℕ) {len : ℕ} (m : Mmc1)
    → bits < 32
    → IsMmc1 len m
    → IsMmc1 len (commit addr bits m)
unfolding commit
commit-IsMmc1 addr bits {len} m b (k, e, s, c, r0, r1, p) =
    if-both (IsMmc1 len) (bit_and (addr / 2 ^ 13) 0x03 == 0) (k, e, s, b, r0, r1, p)
      (if-both (IsMmc1 len) (bit_and (addr / 2 ^ 13) 0x03 == 1) (k, e, s, c, b, r1, p)
        (if-both (IsMmc1 len) (bit_and (addr / 2 ^ 13) 0x03 == 2) (k, e, s, c, r0, b, p)
          (k, e, s, c, r0, r1, b)))

empty_port-IsMmc1 : {len : ℕ} (m : Mmc1) → IsMmc1 len m → IsMmc1 len (empty_port m)
empty_port-IsMmc1 m (k, e, s, c, r0, r1, p) = (k, e, omega arith, c, r0, r1, p)

write_port-IsMmc1 :
    (addr value : ℕ) {len : ℕ} (m : Mmc1) → IsMmc1 len m → IsMmc1 len (write_port addr value m)
unfolding write_port
write_port-IsMmc1 addr value {len} m (k, e, s, c, r0, r1, p) =
    if-both (IsMmc1 len) (has_bits value 0x80)
      (k, e, omega arith, bit_or-lt 5 m.control 0x0c c (omega arith), r0, r1, p)
      (if-both (IsMmc1 len) (ltb (u8 (m.shift_count + 1)) 5)
        (k, e, omega (arith, shift_in-bits m.shift value s, s), c, r0, r1, p)
        (empty_port-IsMmc1 (commit addr (bit_and (shift_in m.shift value) 0x1f) m) (
          commit-IsMmc1 addr (bit_and (shift_in m.shift value) 0x1f) m
            (omega (arith, bit_and_mask 5 (shift_in m.shift value))) (k, e, s, c, r0, r1, p))))

writes-IsMmc1 :
    (ws : List (ℕ × ℕ)) {len : ℕ} (m : Mmc1)
    → InWindow ws
    → IsMmc1 len m
    → (n : Mmc1) × (writes ws m ≡ some n) × IsMmc1 len n
unfolding writes
writes-IsMmc1 [] m b i = (m, refl, i)
writes-IsMmc1 ((addr, value) ∷ ws) m (low, high, bs) i =
    let (n, ran, k) =
      writes-IsMmc1 ws (write_port addr value m) bs (write_port-IsMmc1 addr value m i) in
    (n, writes-cons addr value ws m low ∙ ran, k)

power-IsBanks : (j : ℕ) → j < 8 → 2 ≤ 2 ^ j → 2 ^ j ≤ 16 → IsBanks (2 ^ j)
power-IsBanks zero a b c = absurd (omega arith)
power-IsBanks (suc zero) a b c = two
power-IsBanks (suc (suc zero)) a b c = four
power-IsBanks (suc (suc (suc zero))) a b c = eight
power-IsBanks (suc (suc (suc (suc zero)))) a b c = sixteen
power-IsBanks (suc (suc (suc (suc (suc zero))))) a b c = absurd (omega arith)
power-IsBanks (suc (suc (suc (suc (suc (suc zero)))))) a b c = absurd (omega arith)
power-IsBanks (suc (suc (suc (suc (suc (suc (suc zero))))))) a b c = absurd (omega arith)
power-IsBanks (suc (suc (suc (suc (suc (suc (suc (suc j)))))))) a b c = absurd (omega arith)

with_prg-IsMmc1 :
    (h : Header) (len chr_banks : ℕ) {m : Mmc1}
    → with_prg h len chr_banks ≡ ok m
    → (prg_len h ≡ len) × IsMmc1 len m × (m.chr_bank_count_4k ≡ chr_banks)
unfolding with_prg at_power_on
with_prg-IsMmc1 h len chr_banks {m} e =
    let (layout, e1) =
      refuse_if-eq-ok (not (len % prg_bank_size == 0) || not (is_power_of_two len)) _ _ e in
    let (range, e2) =
      refuse_if-eq-ok (not (leb 2 (u8 (len / prg_bank_size)) && leb (u8 (len / prg_bank_size)) 16))
        _ _ e1 in
    let (large, e3) = refuse_if-eq-ok (ltb (16 * prg_bank_size) len) _ _ e2 in
    let (payload, e4) = refuse_if-eq-ok (not (prg_len h == len)) _ _ e3 in
    let (j, small, covered, count) =
      byte_count-power 14 len (ground arith) (ground arith) (ground arith) in
    let banks = power-IsBanks j small (ground arith) (ground arith) in
    let power_on : IsMmc1 len (at_power_on (2 ^ j) h.has_battery chr_banks)
        × (chr_banks ≡ chr_banks) =
      ((banks, covered, omega arith, omega arith, omega arith, omega arith, omega arith), refl) in
    let built : IsMmc1 len m × (m.chr_bank_count_4k ≡ chr_banks) =
      rw (sym (ok-injective e4), count) power_on in
    (ground arith, built.0, built.1)

new-with_prg :
    (h : Header) (len : ℕ) {m : Mmc1}
    → new h len ≡ ok m
    → (n : ℕ) × (chr_banks_4k (chr_len h) ≡ ok n) × (with_prg h len n ≡ ok m)
unfolding new
new-with_prg h len e =
    let (a, e1) = refuse_if-eq-ok (not (h.mapper == 1)) _ _ e in
    let (b, e2) = refuse_if-eq-ok (not (is_nes2 h.kind)) _ _ e1 in
    let (c, e3) = refuse_if-eq-ok (not (h.submapper == 0 || h.submapper == 5)) _ _ e2 in
    let (d, e4) = refuse_if-eq-ok h.has_trainer _ _ e3 in
    let (f, e5) = refuse_if-eq-ok (is_four_screen h.mirroring) _ _ e4 in
    >>=-eq-ok (chr_banks_4k (chr_len h)) (with_prg h len) e5

new-IsMmc1 : (h : Header) (len : ℕ) {m : Mmc1} → new h len ≡ ok m → IsMmc1 len m
new-IsMmc1 h len e =
    let (n, chr, rest) = new-with_prg h len e in
    let (payload, board, banks) = with_prg-IsMmc1 h len n rest in board

even_base : {n : ℕ} (a : ℕ) → IsBanks n → a < 32 → suc (bit_and a (not8 1) % n) < n
unfolding all_below
even_base a two h = lt_by_table 32 (λ (x : ℕ). suc (bit_and x 254 % 2)) 2 a refl h
even_base a four h = lt_by_table 32 (λ (x : ℕ). suc (bit_and x 254 % 4)) 4 a refl h
even_base a eight h = lt_by_table 32 (λ (x : ℕ). suc (bit_and x 254 % 8)) 8 a refl h
even_base a sixteen h = lt_by_table 32 (λ (x : ℕ). suc (bit_and x 254 % 16)) 16 a refl h

-- Each mode's offset, for a register and an address within their widths.
board_offset-lt :
    (m : Mmc1) (len addr o : ℕ)
    → IsMmc1 len m
    → 0x8000 ≤ addr
    → addr < 65536
    → cpu_to_prg_offset m addr ≡ some o
    → o < len
unfolding cpu_to_prg_offset bank16
board_offset-lt m len addr o (k, e, s, c, r0, r1, p) low high found = ground (
  arith,
  IsBanks-lt k,
  even_base (bit_and m.prg 0x0f) k (bit_and-lt 5 m.prg 0x0f p),
  mod-lt (bit_and m.prg 0x0f) {m = m.prg_bank_count} (omega (arith, IsBanks-lt k)),
)

offset_exists :
    (m : Mmc1) (addr : ℕ) → 0x8000 ≤ addr → (o : ℕ) × (cpu_to_prg_offset m addr ≡ some o)
unfolding cpu_to_prg_offset
offset_exists m addr low =
    let above : ltb addr 0x8000 ≡ false = ground arith in
    let mode = bit_and (m.control / 4) 0x03 in
    rw above (if-both (λ r. (o : ℕ) × (r ≡ some o)) (mode == 0 || mode == 1) (_, refl) (_, refl))

-- On a board that `new` accepts for a PRG of some length, no sequence of register writes to the
-- cartridge window panics, and after it, in each PRG mode, every address of the cartridge window has an
-- offset, and it lies in the PRG.
pub new-serial-cpu_to_prg_offset :
    (h : Header) (len : ℕ) {m : Mmc1} (ws : List (ℕ × ℕ)) (addr : ℕ)
    → new h len ≡ ok m
    → InWindow ws
    → 0x8000 ≤ addr
    → addr < 65536
    → (n : Mmc1) × (writes ws m ≡ some n)
      × ((o : ℕ) × (cpu_to_prg_offset n addr ≡ some o) × (o < len))
new-serial-cpu_to_prg_offset h len {m} ws addr e b low high =
    let (n, ran, board) = writes-IsMmc1 ws m b (new-IsMmc1 h len e) in
    let (o, found) = offset_exists n addr low in
    (n, ran, (o, found, board_offset-lt n len addr o board low high found))
