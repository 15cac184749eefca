-- ===== src/NesRom/Mmc3/Banking.antt =====
-- crates/nes_rom/src/mmc3.rs: an MMC3 board stays in its PRG and CHR.
use nes_to_sms.Base.{
  ℕ, zero, suc, ◌-◌, ◌*◌, ◌/◌, ◌^◌, ◌==◌, ◌<◌, ◌≤◌, ltb, bit_and, has_bits, u8, Bool, true, false,
  not, ◌||◌, List, [], ◌∷◌, get_or, Option, none, some, ok, is_power_of_two, ◌≡◌, refl, ap, sym,
  ◌∙◌, inl, inr, arith, if-both, bit_and_mask, refuse_if-eq-ok, ok-injective, >>=-eq-ok,
  is_power_of_two-power, two_pow-split,
}
use native.Mathlib.Nat.{mod-lt, one-le-pow}
use nes_to_sms.NesRom.Header.{Header, is_nes2, is_four_screen, prg_len, chr_len}
use nes_to_sms.NesRom.Mmc3.Registers.{write_register-decoded}
use nes_to_sms.NesRom.Mmc3.{
  Mmc3, prg_window_size, prg_ram, at_power_on, within, new, register, prg_banks, cpu_to_prg_offset,
  write_decoded, write_register, observe_ppu_address, clock_m2_falling_edge, clock_irq_counter,
}

-- A board with `len` bytes of PRG, in four banks of 8 KiB or more.
abbrev pub IsMmc3 : ℕ → Mmc3 → Type 0
IsMmc3 len m =
    ((k : ℕ) × (m.prg_bank_count ≡ 2 ^ k))
    × (4 ≤ m.prg_bank_count)
    × (len ≡ m.prg_bank_count * prg_window_size)

mask-lt : (n a : ℕ) → ((k : ℕ) × (n ≡ 2 ^ k)) → bit_and a (n - 1) < n
mask-lt n a (k, e) = rw e (rw (bit_and_mask k a) (mod-lt a (one-le-pow k 2 (omega arith))))

four-lt :
    (b c d e i n : ℕ) → b < n → c < n → d < n → e < n → i < 4 → get_or (b ∷ c ∷ d ∷ e ∷ []) i 0 < n
four-lt b c d e zero n p q r s h = p
four-lt b c d e (suc zero) n p q r s h = q
four-lt b c d e (suc (suc zero)) n p q r s h = r
four-lt b c d e (suc (suc (suc zero))) n p q r s h = s
four-lt b c d e (suc (suc (suc (suc i)))) n p q r s h = absurd (omega arith)

prg_banks-lt :
    (m : Mmc3) (len i : ℕ) → IsMmc3 len m → i < 4 → get_or (prg_banks m) i 0 < m.prg_bank_count
unfolding prg_banks
prg_banks-lt m len i (k, four, e) h =
    let r6 = mask-lt m.prg_bank_count (bit_and (register m 6) 0x3f) k in
    let r7 = mask-lt m.prg_bank_count (bit_and (register m 7) 0x3f) k in
    if-both (λ (banks : List ℕ). get_or banks i 0 < m.prg_bank_count)
      (not (has_bits m.bank_select 0x40))
      (four-lt _ _ _ _ i m.prg_bank_count r6 r7 (omega arith) (omega arith) h)
      (four-lt _ _ _ _ i m.prg_bank_count (omega arith) r7 r6 (omega arith) h)

pub data Event : Type 0 where
  write : (addr value : ℕ) → Event
  observe : (addr : ℕ) → Event
  m2_edge : Event

-- A panicking write leaves no board.
abbrev when_written : (Mmc3 → Option Mmc3) → Option (Bool × Mmc3) → Option Mmc3
when_written k none = none
when_written k (some (done, n)) = k n

pub after : List Event → Mmc3 → Option Mmc3
after [] m = some m
after (write addr value ∷ es) m = when_written (after es) (write_register addr value m)
after (observe addr ∷ es) m = after es (observe_ppu_address addr m)
after (m2_edge ∷ es) m = after es (clock_m2_falling_edge m)

write_decoded-count :
    (port value : ℕ) (m : Mmc3) {n : Mmc3}
    → write_decoded port value m ≡ some n
    → n.prg_bank_count ≡ m.prg_bank_count
unfolding write_decoded
write_decoded-count port value m e = ground arith

observe-count :
    (addr : ℕ) (m : Mmc3) → (observe_ppu_address addr m).prg_bank_count ≡ m.prg_bank_count
unfolding observe_ppu_address clock_irq_counter
observe-count addr m = ground arith

m2-count : (m : Mmc3) → (clock_m2_falling_edge m).prg_bank_count ≡ m.prg_bank_count
unfolding clock_m2_falling_edge
m2-count m = ground arith

bank_power :
    (len : ℕ)
    → is_power_of_two len ≡ true
    → 4 * 2 ^ 13 ≤ len
    → len ≤ 64 * 2 ^ 13
    → (k : ℕ) × (len ≡ 2 ^ k * 2 ^ 13) × (u8 (len / 2 ^ 13) ≡ 2 ^ k) × (4 ≤ 2 ^ k)
bank_power len p low high =
    let (k, e) = is_power_of_two-power len p in
    let (j, exact) = two_pow-split 13 k (omega arith) in
    (j, e ∙ exact, omega (arith, e ∙ exact), omega (arith, e ∙ exact))

-- What a board that `new` accepts has passed, and its first state.
pub new-at_power_on :
    (h : Header) (len chr : ℕ) {m : Mmc3}
    → new h len chr ≡ ok m
    → (ram : Bool) × (is_power_of_two len ≡ true)
      × (within (32 * 1024) (512 * 1024) len ≡ true)
      × (is_power_of_two chr ≡ true)
      × (within (8 * 1024) (256 * 1024) chr ≡ true)
      × (at_power_on len chr h.mirroring ram ≡ m)
unfolding new
new-at_power_on h len chr {m} e =
    let (a, e1) = refuse_if-eq-ok (not (h.mapper == 4)) _ _ e in
    let (b, e2) = refuse_if-eq-ok (not (is_nes2 h.kind)) _ _ e1 in
    let (c, e3) = refuse_if-eq-ok (not (h.submapper == 0)) _ _ e2 in
    let (d, e4) = refuse_if-eq-ok h.has_trainer _ _ e3 in
    let (f, e5) = refuse_if-eq-ok (is_four_screen h.mirroring) _ _ e4 in
    let (layout, e6) =
      refuse_if-eq-ok (not (within (32 * 1024) (512 * 1024) len) || not (is_power_of_two len)) _ _
        e5 in
    let (g, e7) =
      refuse_if-eq-ok (not (within (8 * 1024) (256 * 1024) chr) || not (is_power_of_two chr)) _ _
        e6 in
    let (i, e8) = refuse_if-eq-ok (not (prg_len h == len) || not (chr_len h == chr)) _ _ e7 in
    let (j, e9) =
      refuse_if-eq-ok (not (h.chr_ram_size == 0) || not (h.chr_nvram_size == 0)) _ _ e8 in
    let (ram, chosen, e10) = >>=-eq-ok (prg_ram h) _ e9 in
    (ram, ground arith, ground arith, ground arith, ground arith, ok-injective e10)

new-IsMmc3 : (h : Header) (len chr : ℕ) {m : Mmc3} → new h len chr ≡ ok m → IsMmc3 len m
unfolding at_power_on
new-IsMmc3 h len chr {m} e =
    let (ram, power, range, chr_power, chr_range, same) = new-at_power_on h len chr e in
    let (k, exact, count, four) = bank_power len power (ground arith) (ground arith) in
    let power_on : IsMmc3 len (at_power_on len chr h.mirroring ram) =
      ((k, count), omega (arith, count), exact ∙ ap (λ (t : ℕ). t * prg_window_size) (sym count)) in
    let built : IsMmc3 len m = rw (sym same) power_on in built

-- Panics are excluded by the decoding of the register addresses.
abbrev pub Bounded : Event → Type 0
Bounded (write addr value) = addr < 65536
Bounded (observe addr) = Unit {0}
Bounded m2_edge = Unit {0}

abbrev pub AllBounded : List Event → Type 0
AllBounded [] = Unit {0}
AllBounded (e ∷ es) = Bounded e × AllBounded es

same_count :
    (len : ℕ) (m n : Mmc3) → n.prg_bank_count ≡ m.prg_bank_count → IsMmc3 len m → IsMmc3 len n
same_count len m n e (k, four, exact) = rw e (k, four, exact)

write-IsMmc3 :
    (addr value len : ℕ) (m : Mmc3)
    → addr < 65536
    → IsMmc3 len m
    → (done : Bool) × (n : Mmc3) × (write_register addr value m ≡ some (done, n)) × IsMmc3 len n
write-IsMmc3 addr value len m h i = elim (write_register-decoded addr value m h) [
  | inl (below, e) ↦ (false, m, e, i)
  | inr (above, (n, e, port)) ↦
      (true, n, e, same_count len m n (write_decoded-count _ value m port) i)
]

after-IsMmc3 :
    (es : List Event) (len : ℕ) (m : Mmc3)
    → AllBounded es
    → IsMmc3 len m
    → (n : Mmc3) × (after es m ≡ some n) × IsMmc3 len n
unfolding after
after-IsMmc3 [] len m b i = (m, refl, i)
after-IsMmc3 (write addr value ∷ es) len m (b, bs) i =
    let (done, n, e, j) = write-IsMmc3 addr value len m b i in
    let (last, ran, k) = after-IsMmc3 es len n bs j in
    (last, ap (when_written (after es)) e ∙ ran, k)
after-IsMmc3 (observe addr ∷ es) len m (b, bs) i =
    after-IsMmc3 es len (observe_ppu_address addr m) bs
      (same_count len m (observe_ppu_address addr m) (observe-count addr m) i)
after-IsMmc3 (m2_edge ∷ es) len m (b, bs) i =
    after-IsMmc3 es len (clock_m2_falling_edge m) bs
      (same_count len m (clock_m2_falling_edge m) (m2-count m) i)

-- On a board that `new` accepts for a PRG of some length, no sequence of register writes at CPU
-- addresses, PPU addresses and M2 edges panics, and after it every address of the cartridge window
-- has an offset, which lies in the PRG.
pub new-after-cpu_to_prg_offset :
    (h : Header) (len chr : ℕ) {m : Mmc3} (es : List Event) (addr : ℕ)
    → new h len chr ≡ ok m
    → AllBounded es
    → 0x8000 ≤ addr
    → addr < 65536
    → (n : Mmc3) × (after es m ≡ some n)
      × ((o : ℕ) × (cpu_to_prg_offset n addr ≡ some o) × (o < len))
unfolding cpu_to_prg_offset
new-after-cpu_to_prg_offset h len chr {m} es addr e b low high =
    let (n, ran, board) = after-IsMmc3 es len m b (new-IsMmc3 h len chr e) in
    let window : (addr - 0x8000) / prg_window_size < 4 = omega arith in
    let bank = prg_banks-lt n len ((addr - 0x8000) / prg_window_size) board window in
    let above : ltb addr 0x8000 ≡ false = ground arith in
    (n, ran, rw above (_, refl, omega (arith, board.2, bank)))
