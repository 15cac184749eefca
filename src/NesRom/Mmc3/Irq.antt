-- ===== src/NesRom/Mmc3/Irq.antt =====
-- crates/nes_rom/src/mmc3.rs: the IRQ counter and the A12 filter.
use nes_to_sms.Base.{
  ℕ, zero, suc, ◌+◌, ◌-◌, ◌<◌, ◌≤◌, ◌==◌, leb, min, has_bits, true, false, ◌||◌, if◌then◌else◌, ◌≡◌,
  refl, ap, ◌∙◌, arith, Bool-cases, inl, inr,
}
use nes_to_sms.NesRom.Mmc3.{Mmc3, clock_irq_counter, observe_ppu_address, clock_m2_falling_edge}

pub clocks : ℕ → Mmc3 → Mmc3
clocks zero m = m
clocks (suc n) m = clock_irq_counter (clocks n m)

-- `n` clocks after the one that reloaded the latch `l`.
abbrev Counting : ℕ → ℕ → Mmc3 → Type 0
Counting l n m =
    (m.irq_counter ≡ l - n)
    × (m.irq_reload ≡ false)
    × (m.irq_enabled ≡ true)
    × (m.irq_latch ≡ l)
    × (m.irq_pending ≡ (n == l))

reload_clock :
    (m : Mmc3)
    → m.irq_reload ≡ true
    → m.irq_enabled ≡ true
    → m.irq_pending ≡ false
    → Counting m.irq_latch 0 (clock_irq_counter m)
unfolding clock_irq_counter
reload_clock m r e p =
    let test : (m.irq_counter == 0 || m.irq_reload) ≡ true = ground arith in
    rw (test, e, p) (omega arith, refl, refl, refl, ground arith)

clock-Counting :
    (m : Mmc3) (l n : ℕ) → Counting l n m → n < l → Counting l (suc n) (clock_irq_counter m)
unfolding clock_irq_counter
clock-Counting m l n (c, r, e, k, p) h =
    let test : (m.irq_counter == 0 || m.irq_reload) ≡ false = ground arith in
    rw (test, e, k) (omega arith, refl, refl, refl, ground arith)

clocks-Counting :
    (m : Mmc3) (n : ℕ)
    → m.irq_reload ≡ true
    → m.irq_enabled ≡ true
    → m.irq_pending ≡ false
    → n ≤ m.irq_latch
    → Counting m.irq_latch n (clocks (suc n) m)
unfolding clocks
clocks-Counting m zero r e p h = reload_clock m r e p
clocks-Counting m (suc n) r e p h =
    clock-Counting (clocks (suc n) m) m.irq_latch n (clocks-Counting m n r e p (omega arith))
      (omega arith)

-- With the IRQ enabled, a reload requested and no IRQ pending, the line stays low for as many
-- clocks of the counter as the latch says, and the next clock raises it.
pub clocks-irq_pending :
    (m : Mmc3)
    → m.irq_reload ≡ true
    → m.irq_enabled ≡ true
    → m.irq_pending ≡ false
    → ((n : ℕ) → n ≤ m.irq_latch → (clocks n m).irq_pending ≡ false)
      × ((clocks (suc m.irq_latch) m).irq_pending ≡ true)
unfolding clocks
clocks-irq_pending m r e p = (quiet, raised)
  where
    raised : (clocks (suc m.irq_latch) m).irq_pending ≡ true
    raised = let (c, l, a, k, q) = clocks-Counting m m.irq_latch r e p (omega arith) in ground arith

    quiet : (n : ℕ) → n ≤ m.irq_latch → (clocks n m).irq_pending ≡ false
    quiet zero h = p
    quiet (suc n) h = let (c, l, a, k, q) = clocks-Counting m n r e p (omega arith) in ground arith

pub m2_edges : ℕ → Mmc3 → Mmc3
m2_edges zero m = m
m2_edges (suc n) m = clock_m2_falling_edge (m2_edges n m)

abbrev low_for : ℕ → Mmc3 → Mmc3
low_for k m = record m { a12_low_m2_edges = k }

m2_edge-low_for :
    (m : Mmc3) (k : ℕ)
    → m.a12_high ≡ false
    → clock_m2_falling_edge (low_for k m) ≡ low_for (min (k + 1) 3) m
unfolding clock_m2_falling_edge
m2_edge-low_for m k a =
    let count : min (min (k + 1) 255) 3 ≡ min (k + 1) 3 = omega arith in rw (a, count) refl

m2_edges-low_for :
    (m : Mmc3) (n : ℕ)
    → m.a12_high ≡ false
    → m.a12_low_m2_edges ≡ 0
    → m2_edges n m ≡ low_for (min n 3) m
unfolding m2_edges
m2_edges-low_for m zero a c = ap (λ (k : ℕ). low_for k m) c
m2_edges-low_for m (suc n) a c =
    let count : min (min n 3 + 1) 3 ≡ min (suc n) 3 = omega arith in
    ap clock_m2_falling_edge (m2_edges-low_for m n a c)
    ∙ m2_edge-low_for m (min n 3) a
    ∙ ap (λ (k : ℕ). low_for k m) count

-- When A12 has just gone low, `n` falling edges of M2 and then an address with A12 high clock the
-- IRQ counter exactly when `n` is at least 3, and change nothing else but the state of the filter.
pub m2_edges-observe_ppu_address :
    (m : Mmc3) (n addr : ℕ)
    → m.a12_high ≡ false
    → m.a12_low_m2_edges ≡ 0
    → has_bits addr 0x1000 ≡ true
    → observe_ppu_address addr (m2_edges n m)
      ≡ record (if leb 3 n then clock_irq_counter m else m) {
        a12_low_m2_edges = 0;
        a12_high = true;
      }
unfolding observe_ppu_address clock_irq_counter
m2_edges-observe_ppu_address m n addr a c h =
    rw (m2_edges-low_for m n a c, h, a)
      (elim (Bool-cases (leb 3 n)) [
        | inl long ↦ let count : leb 3 (min n 3) ≡ true = ground arith in rw (long, count) refl
        | inr short ↦ let count : leb 3 (min n 3) ≡ false = ground arith in rw (short, count) refl
      ])
