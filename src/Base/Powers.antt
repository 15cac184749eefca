-- ===== src/Base/Powers.antt =====
-- `is_power_of_two`, and the counts of banks that it leaves.
use Prim.Native.Nat.{ℕ, zero, suc, ◌+◌, ◌-◌, ◌*◌, ◌/◌, ◌%◌, ◌^◌, ◌≤◌, ◌<◌}
use mathlib.Core.Path.{◌≡◌, refl, ap, sym, ◌∙◌}
use mathlib.Core.Logic.{◌⊎◌, inl, inr}
use mathlib.Core.Bool.{Bool, true, false}
use native.Mathlib.Nat.{
  pow-suc, one-le-pow, one-mul, suc-add, zero-add, add-zero, add-suc, mod-eq_of_lt,
}
use native.Mathlib.Decide.{dec_lt}
use native.Mathlib.Omega.{arith}
use nes_to_sms.Base.Bits.{all_below, all_below_sound}
use nes_to_sms.Base.Tests.{ltb, ◌==◌, if◌then◌else◌, Bool-cases}

-- Halving as long as the number is even; the fuel is the number itself.
halves_to_one : ℕ → ℕ → Bool
halves_to_one zero n = false
halves_to_one (suc fuel) n =
    let rest = halves_to_one fuel (n / 2) in
    if n == 1 then true else (if n % 2 == 1 then false else rest)

unfoldable pub is_power_of_two : ℕ → Bool
unfolding halves_to_one
is_power_of_two n = halves_to_one n n

halves_to_one-power : (fuel n : ℕ) → halves_to_one fuel n ≡ true → (k : ℕ) × (n ≡ 2 ^ k)
unfolding halves_to_one
halves_to_one-power zero n h = absurd (ground arith)
halves_to_one-power (suc fuel) n h = elim (Bool-cases (n == 1)) [
  | inl one ↦ (0, ground arith)
  | inr more ↦
      let (k, e) = halves_to_one-power fuel (n / 2) (ground arith) in
      (suc k, ground (arith, pow-suc 2 k))
]

pub is_power_of_two-power : (n : ℕ) → is_power_of_two n ≡ true → (k : ℕ) × (n ≡ 2 ^ k)
unfolding is_power_of_two
is_power_of_two-power n h = halves_to_one-power n n h

two_pow_add : (a b : ℕ) → 2 ^ (a + b) ≡ 2 ^ a * 2 ^ b
two_pow_add zero b = rw (zero-add, one-mul) refl
two_pow_add (suc a) b =
    rw (suc-add a b)
      (omega (arith, pow-suc 2 (a + b), two_pow_add a b, ap (λ (t : ℕ). t * 2 ^ b) (pow-suc 2 a)))

two_pow_le : (k d : ℕ) → 2 ^ k ≤ 2 ^ (k + d)
two_pow_le k zero = rw add-zero (omega arith)
two_pow_le k (suc d) = rw (add-suc k d) (omega (arith, pow-suc 2 (k + d), two_pow_le k d))

-- A power of two that a power of two divides has a power of two as its quotient.
pub quotient_power : (w k : ℕ) → 2 ^ k % 2 ^ w ≡ 0 → (j : ℕ) × (2 ^ k ≡ 2 ^ j * 2 ^ w)
quotient_power w k h = elim (dec_lt k w) [
  | yes below ↦ absurd (small below)
  | no above ↦ (k - w, exact (omega arith))
]
  where
    small : k < w → ⊥
    small below =
        let e : k + suc (w - k - 1) ≡ w = omega arith in
        let d = two_pow_le k (w - k - 1) in
        let double : 2 ^ w ≡ 2 ^ (k + (w - k - 1)) * 2 =
          ap (λ (t : ℕ). 2 ^ t) (sym e ∙ add-suc k (w - k - 1)) ∙ pow-suc 2 (k + (w - k - 1)) in
        let kept : 2 ^ k % 2 ^ w ≡ 2 ^ k = mod-eq_of_lt (omega (arith, one-le-pow k 2)) in
        omega (arith, one-le-pow k 2)

    exact : w ≤ k → 2 ^ k ≡ 2 ^ (k - w) * 2 ^ w
    exact above =
        let e : k - w + w ≡ k = omega arith in ap (λ (t : ℕ). 2 ^ t) (sym e) ∙ two_pow_add (k - w) w

-- A power of two that fits no byte is cut to 0 by a cast to a byte.
pub two_pow_byte : (j : ℕ) → (j < 8) ⊎ (2 ^ j % 256 ≡ 0)
two_pow_byte j = elim (dec_lt j 8) [
  | yes below ↦ inl below
  | no above ↦
      let e : j - 8 + 8 ≡ j = omega arith in
      let split : 2 ^ j ≡ 2 ^ (j - 8) * 256 =
        ap (λ (t : ℕ). 2 ^ t) (sym e) ∙ two_pow_add (j - 8) 8 in
      inr (omega arith)
]

below-double : (k w : ℕ) → k < w → 2 ^ k * 2 ≤ 2 ^ w
below-double k w h =
    let e : k + suc (w - k - 1) ≡ w = omega arith in
    let double : 2 ^ w ≡ 2 ^ (k + (w - k - 1)) * 2 =
      ap (λ (t : ℕ). 2 ^ t) (sym e ∙ add-suc k (w - k - 1)) ∙ pow-suc 2 (k + (w - k - 1)) in
    omega (arith, two_pow_le k (w - k - 1))

-- A power of two that is not below another is a multiple of it.
pub two_pow-split : (w k : ℕ) → 2 ^ w ≤ 2 ^ k → (j : ℕ) × (2 ^ k ≡ 2 ^ j * 2 ^ w)
two_pow-split w k h = elim (dec_lt k w) [
  | yes below ↦ absurd (omega (arith, below-double k w below, one-le-pow k 2))
  | no above ↦
      let e : k - w + w ≡ k = omega arith in
      (k - w, ap (λ (t : ℕ). 2 ^ t) (sym e) ∙ two_pow_add (k - w) w)
]

power_table : all_below 8 (λ k. ltb (2 ^ k) 256) ≡ true
unfolding all_below
power_table = refl

-- The mask of one bit of a byte is a byte.
pub two-pow-lt : (k : ℕ) → k < 8 → 2 ^ k < 256
two-pow-lt k h =
    let here = all_below_sound 8 (λ j. ltb (2 ^ j) 256) k power_table h in ground (arith, here)
