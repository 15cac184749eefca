-- ===== src/Base/BitSteps.antt =====
-- The bit operations at variables: their lowest digit, their range, and the masks that are
-- remainders and sums.
use Prim.Native.Nat.{
  ℕ, zero, suc, ◌+◌, ◌-◌, ◌*◌, ◌/◌, ◌%◌, ◌^◌, ◌≤◌, ◌<◌, min, max, digits, bitwise, differ, bit_and,
  bit_or, bit_xor, bit_and-bitwise, bit_or-bitwise, bit_xor-bitwise,
}
use mathlib.Core.Path.{◌≡◌, refl, ap, ◌∙◌}
use native.Mathlib.Nat.{pow-suc, one-le-pow}
use native.Mathlib.Omega.{arith}

-- The fuel of `digits` may be anything that is not below the first number.
module _ (z : ℕ → ℕ) (f : ℕ → ℕ → ℕ) where
  digits_any_fuel : (n a b : ℕ) → a ≤ n → digits z f n a b ≡ bitwise z f a b
  digits_any_fuel n zero b h = at_zero n
    where
      at_zero : (k : ℕ) → digits z f k zero b ≡ z b
      at_zero zero = refl
      at_zero (suc k) = refl
  digits_any_fuel zero (suc a) b h = absurd (omega arith)
  digits_any_fuel (suc n) (suc a) b h =
      let half : suc a / 2 ≤ a = omega arith in
      ap (λ (t : ℕ). t * 2 + f (suc a % 2) (b % 2))
        (more n a (suc a / 2) (b / 2) (omega arith) half)
    where
      more : (k l x y : ℕ) → x ≤ k → x ≤ l → digits z f k x y ≡ digits z f l x y
      more zero zero a b p q = refl
      more zero (suc m) zero b p q = refl
      more zero (suc m) (suc a) b p q = absurd (omega arith)
      more (suc n) zero zero b p q = refl
      more (suc n) zero (suc a) b p q = absurd (omega arith)
      more (suc n) (suc m) zero b p q = refl
      more (suc n) (suc m) (suc a) b p q =
          ap (λ (t : ℕ). t * 2 + f (suc a % 2) (b % 2))
            (more n m (suc a / 2) (b / 2) (omega arith) (omega arith))

  lowest_digit :
      (x y : ℕ)
      → bitwise z f (suc x) y ≡ bitwise z f (suc x / 2) (y / 2) * 2 + f (suc x % 2) (y % 2)
  lowest_digit x y =
      ap (λ (t : ℕ). t * 2 + f (suc x % 2) (y % 2))
        (digits_any_fuel x (suc x / 2) (y / 2) (omega arith))

-- `&`, `|` and `^` on the lowest bit and on the rest.
pub bit_and_step : (x y : ℕ) → bit_and x y ≡ bit_and (x / 2) (y / 2) * 2 + min (x % 2) (y % 2)
bit_and_step zero y = simp bit_and-bitwise (omega arith)
bit_and_step (suc x) y = simp bit_and-bitwise (lowest_digit (λ v. 0) min x y)

pub bit_or_step : (x y : ℕ) → bit_or x y ≡ bit_or (x / 2) (y / 2) * 2 + max (x % 2) (y % 2)
bit_or_step zero y = simp bit_or-bitwise (omega arith)
bit_or_step (suc x) y = simp bit_or-bitwise (lowest_digit (λ v. v) max x y)

pub bit_xor_step : (x y : ℕ) → bit_xor x y ≡ bit_xor (x / 2) (y / 2) * 2 + differ (x % 2) (y % 2)
bit_xor_step zero y = simp bit_xor-bitwise (omega arith)
bit_xor_step (suc x) y = simp bit_xor-bitwise (lowest_digit (λ v. v) differ x y)

pub differ-lt : (x y : ℕ) → x < 2 → y < 2 → differ x y < 2
differ-lt zero y p q = q
differ-lt (suc zero) zero p q = omega arith
differ-lt (suc zero) (suc zero) p q = omega arith
differ-lt (suc zero) (suc (suc y)) p q = absurd (omega arith)
differ-lt (suc (suc x)) y p q = absurd (omega arith)

pub differ-eq-mod : (x y : ℕ) → x < 2 → y < 2 → differ x y ≡ (x + y) % 2
differ-eq-mod zero y p q = omega arith
differ-eq-mod (suc zero) zero p q = omega arith
differ-eq-mod (suc zero) (suc zero) p q = omega arith
differ-eq-mod (suc zero) (suc (suc y)) p q = absurd (omega arith)
differ-eq-mod (suc (suc x)) y p q = absurd (omega arith)

-- The operations stay within the width of their arguments.
pub bit_and-lt : (k a b : ℕ) → a < 2 ^ k → bit_and a b < 2 ^ k
bit_and-lt zero zero b p = omega (arith, bit_and-bitwise 0 b)
bit_and-lt zero (suc a) b p = absurd (omega arith)
bit_and-lt (suc k) a b p =
    let half : a / 2 < 2 ^ k = omega (arith, pow-suc 2 k) in
    omega (arith, pow-suc 2 k, bit_and_step a b, bit_and-lt k (a / 2) (b / 2) half)

pub bit_or-lt : (k a b : ℕ) → a < 2 ^ k → b < 2 ^ k → bit_or a b < 2 ^ k
bit_or-lt zero zero b p q = omega (arith, bit_or-bitwise 0 b)
bit_or-lt zero (suc a) b p q = absurd (omega arith)
bit_or-lt (suc k) a b p q =
    let ha : a / 2 < 2 ^ k = omega (arith, pow-suc 2 k) in
    let hb : b / 2 < 2 ^ k = omega (arith, pow-suc 2 k) in
    omega (arith, pow-suc 2 k, bit_or_step a b, bit_or-lt k (a / 2) (b / 2) ha hb)

pub bit_xor-lt : (k a b : ℕ) → a < 2 ^ k → b < 2 ^ k → bit_xor a b < 2 ^ k
bit_xor-lt zero zero b p q = omega (arith, bit_xor-bitwise 0 b)
bit_xor-lt zero (suc a) b p q = absurd (omega arith)
bit_xor-lt (suc k) a b p q =
    let ha : a / 2 < 2 ^ k = omega (arith, pow-suc 2 k) in
    let hb : b / 2 < 2 ^ k = omega (arith, pow-suc 2 k) in
    let d = differ-lt (a % 2) (b % 2) (omega arith) (omega arith) in
    omega (arith, pow-suc 2 k, bit_xor_step a b, bit_xor-lt k (a / 2) (b / 2) ha hb)

bit_or-zero_below : (k a : ℕ) → a < 2 ^ k → bit_or a 0 ≡ a
bit_or-zero_below zero zero p = refl
bit_or-zero_below zero (suc a) p = absurd (omega arith)
bit_or-zero_below (suc k) a p =
    omega (arith, bit_or_step a 0, bit_or-zero_below k (a / 2) (omega (arith, pow-suc 2 k)))

lt-two-pow : (a : ℕ) → a < 2 ^ a
lt-two-pow zero = omega arith
lt-two-pow (suc a) = omega (arith, pow-suc 2 a, lt-two-pow a)

bit_and-zero_below : (k a : ℕ) → a < 2 ^ k → bit_and a 0 ≡ 0
bit_and-zero_below zero zero p = refl
bit_and-zero_below zero (suc a) p = absurd (omega arith)
bit_and-zero_below (suc k) a p =
    omega (arith, bit_and_step a 0, bit_and-zero_below k (a / 2) (omega (arith, pow-suc 2 k)))

pub bit_and-zero : (a : ℕ) → bit_and a 0 ≡ 0
bit_and-zero a = bit_and-zero_below a a (lt-two-pow a)

pub shift_suc : (q k : ℕ) → q * 2 ^ suc k ≡ 2 * (q * 2 ^ k)
shift_suc q k = omega (arith, ap (λ (t : ℕ). q * t) (pow-suc 2 k))

low_digits : (k q r : ℕ) → r < 2 ^ k → bit_and (q * 2 ^ k + r) (2 ^ k - 1) ≡ r
low_digits zero q zero h = bit_and-zero_below _ _ (lt-two-pow (q * 2 ^ 0 + 0))
low_digits zero q (suc r) h = absurd (omega arith)
low_digits (suc k) q r h =
    let half : r / 2 < 2 ^ k = omega (arith, pow-suc 2 k) in
    let number : (q * 2 ^ suc k + r) / 2 ≡ q * 2 ^ k + r / 2 = omega (arith, shift_suc q k) in
    let mask : (2 ^ suc k - 1) / 2 ≡ 2 ^ k - 1 = omega (arith, pow-suc 2 k, one-le-pow k 2) in
    let odd : (2 ^ suc k - 1) % 2 ≡ 1 = omega (arith, pow-suc 2 k, one-le-pow k 2) in
    let parity : (q * 2 ^ suc k + r) % 2 ≡ r % 2 = omega (arith, shift_suc q k) in
    let step = bit_and_step (q * 2 ^ suc k + r) (2 ^ suc k - 1) in
    let rest = low_digits k q (r / 2) half in
    step ∙ rw (number, mask, odd, parity, rest) (omega arith)

-- `x & (2 ^ k - 1)` is the remainder.
pub bit_and_mask : (k a : ℕ) → bit_and a (2 ^ k - 1) ≡ a % 2 ^ k
bit_and_mask k a = ground (arith, one-le-pow k 2, low_digits k (a / 2 ^ k) (a % 2 ^ k))

-- `(q << k) | r` is a sum when `r` has at most `k` bits.
pub bit_or_shifted : (k q r : ℕ) → r < 2 ^ k → bit_or (q * 2 ^ k) r ≡ q * 2 ^ k + r
bit_or_shifted zero q zero h =
    bit_or-zero_below (q * 2 ^ 0) _ (lt-two-pow (q * 2 ^ 0)) ∙ omega arith
bit_or_shifted zero q (suc r) h = absurd (omega arith)
bit_or_shifted (suc k) q r h =
    let half : r / 2 < 2 ^ k = omega (arith, pow-suc 2 k) in
    ground (arith, bit_or_step (q * 2 ^ suc k) r, shift_suc q k, bit_or_shifted k q (r / 2) half)
