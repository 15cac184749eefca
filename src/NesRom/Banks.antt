-- ===== src/NesRom/Banks.antt =====
-- crates/nes_rom/src: the bank count that a board's constructor keeps in a byte.
use nes_to_sms.Base.{
  ℕ, ◌*◌, ◌/◌, ◌%◌, ◌^◌, ◌<◌, u8, true, ◌≡◌, refl, ap, ◌∙◌, sym, inl, inr, arith, is_power_of_two,
  eq_by_table, all_below, is_power_of_two-power, quotient_power, two_pow_byte,
}
use native.Mathlib.Nat.{one-le-pow, mul-div_cancel}

byte_power : (j : ℕ) → j < 8 → u8 (2 ^ j) ≡ 2 ^ j
unfolding all_below
byte_power j h = eq_by_table 8 (λ (i : ℕ). u8 (2 ^ i)) (λ (i : ℕ). 2 ^ i) j refl h

-- The cast to a byte keeps the count of a power-of-two layout unless it makes it 0.
pub byte_count-power :
    (w len : ℕ)
    → is_power_of_two len ≡ true
    → len % 2 ^ w ≡ 0
    → 0 < u8 (len / 2 ^ w)
    → (j : ℕ) × (j < 8) × (len ≡ 2 ^ j * 2 ^ w) × (u8 (len / 2 ^ w) ≡ 2 ^ j)
byte_count-power w len power whole positive =
    let (k, e) = is_power_of_two-power len power in
    let (j, exact) = quotient_power w k (ap (λ (t : ℕ). t % 2 ^ w) (sym e) ∙ whole) in
    let count : len / 2 ^ w ≡ 2 ^ j =
      ap (λ (t : ℕ). t / 2 ^ w) (e ∙ exact)
      ∙ mul-div_cancel (2 ^ j) (one-le-pow w 2 (omega arith)) in
    elim (two_pow_byte j) [
      | inl small ↦ (j, small, e ∙ exact, ap u8 count ∙ byte_power j small)
      | inr cut ↦ absurd (omega (arith, ap u8 count))
    ]
