-- ===== src/NesRom/Mmc3/Chr.antt =====
-- crates/nes_rom/src/mmc3.rs: the CHR windows of an MMC3 board.
use nes_to_sms.Base.{
  ℕ, zero, suc, ◌-◌, ◌*◌, ◌/◌, ◌^◌, ◌<◌, ◌≤◌, leb, bit_and, has_bits, u8, List, [], ◌∷◌, get_or,
  some, if◌then◌else◌, ◌≡◌, refl, arith, false, bit_and_mask, is_power_of_two-power, two_pow-split,
  u16, ok, sym,
}
use mathlib.Core.List.{map}
use native.Mathlib.Nat.{mod-lt, one-le-pow}
use nes_to_sms.NesRom.Header.{Header}
use nes_to_sms.NesRom.Mmc3.Banking.{new-at_power_on}
use nes_to_sms.NesRom.Mmc3.{
  Mmc3, new, at_power_on, chr_window_size, chr_windows, rotate_left, chr_banks, ppu_to_chr_offset,
}

-- A board with `len` bytes of CHR, a power-of-two number of windows that a byte can number.
abbrev pub HasChr : ℕ → Mmc3 → Type 0
HasChr len m =
    ((k : ℕ) × (m.chr_bank_count ≡ 2 ^ k))
    × (m.chr_bank_count ≤ 256)
    × (len ≡ m.chr_bank_count * chr_window_size)

-- What `new` accepts for a CHR of some length is such a board.
pub new-HasChr : (h : Header) (len chr : ℕ) {m : Mmc3} → new h len chr ≡ ok m → HasChr chr m
unfolding at_power_on
new-HasChr h len chr {m} e =
    let (ram, prg_power, prg_range, power, range, same) = new-at_power_on h len chr e in
    let (k, exact) = is_power_of_two-power chr power in
    let (j, split) = two_pow-split 10 k (ground arith) in
    let count : u16 (chr / chr_window_size) ≡ 2 ^ j = ground arith in
    let power_on : HasChr chr (at_power_on len chr h.mirroring ram) =
      ((j, count), ground arith, ground arith) in
    let built : HasChr chr m = rw (sym same) power_on in built

get_or-map-lt :
    (f : ℕ → ℕ) (n : ℕ) (xs : List ℕ) (i : ℕ)
    → 0 < n
    → ((x : ℕ) → f x < n)
    → get_or (map f xs) i 0 < n
get_or-map-lt f n [] i p h = p
get_or-map-lt f n (x ∷ xs) zero p h = h x
get_or-map-lt f n (x ∷ xs) (suc i) p h = get_or-map-lt f n xs i p h

bank_mask-lt : (n x : ℕ) → ((k : ℕ) × (n ≡ 2 ^ k)) → n ≤ 256 → bit_and x (u8 (n - 1)) < n
bank_mask-lt n x (k, e) h =
    let whole : u8 (n - 1) ≡ n - 1 = omega arith in
    rw whole (rw e (rw (bit_and_mask k x) (mod-lt x (one-le-pow k 2 (omega arith)))))

-- On a board with a power-of-two number of 1 KiB CHR banks, at most 256, every pattern-table
-- address has an offset in the CHR, whatever the bank registers and the inversion bit hold.
pub ppu_to_chr_offset-lt :
    (m : Mmc3) (len addr : ℕ)
    → HasChr len m
    → addr < 0x2000
    → (o : ℕ) × (ppu_to_chr_offset m addr ≡ some o) × (o < len)
unfolding ppu_to_chr_offset chr_banks
ppu_to_chr_offset-lt m len addr (k, h, e) a =
    let below : leb 0x2000 addr ≡ false = ground arith in
    let some_bank : 0 < m.chr_bank_count = omega (arith, k.1, one-le-pow k.0 2) in
    let bank =
      get_or-map-lt (λ (x : ℕ). bit_and x (u8 (m.chr_bank_count - 1))) m.chr_bank_count
        (if has_bits m.bank_select 0x80 then rotate_left 4 (chr_windows m) else chr_windows m)
        (addr / chr_window_size) some_bank (λ x. bank_mask-lt m.chr_bank_count x k h) in
    rw below (_, refl, omega (arith, e, bank))
