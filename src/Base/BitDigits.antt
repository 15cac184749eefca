-- ===== src/Base/BitDigits.antt =====
-- One binary digit of a bit operation, at any place, and the test of one bit.
use Prim.Native.Nat.{ℕ, zero, suc, ◌*◌, ◌/◌, ◌%◌, ◌^◌, min, max, differ, bit_and, bit_or, bit_xor}
use mathlib.Core.Path.{◌≡◌, ap, sym, ◌∙◌}
use native.Mathlib.Nat.{pow-suc, div-div-eq-div-mul, mul_comm, div-one}
use native.Mathlib.Omega.{arith}
use nes_to_sms.Base.BitSteps.{
  bit_and_step, bit_or_step, bit_xor_step, differ-lt, bit_and-zero, shift_suc,
}

-- Digit `k + 1` of a number is digit `k` of its half.
abbrev pub digit : ℕ → ℕ → ℕ
digit k a = a / 2 ^ k % 2

div-two-pow_suc : (k a : ℕ) → a / 2 ^ suc k ≡ a / 2 / 2 ^ k
div-two-pow_suc k a =
    ap (λ (t : ℕ). a / t) (pow-suc 2 k ∙ mul_comm (2 ^ k) 2) ∙ sym (div-div-eq-div-mul a 2 (2 ^ k))

pub digit-suc : (k a : ℕ) → digit (suc k) a ≡ digit k (a / 2)
digit-suc k a = ap (λ (t : ℕ). t % 2) (div-two-pow_suc k a)

pub digit-bit_and : (k a b : ℕ) → digit k (bit_and a b) ≡ min (digit k a) (digit k b)
digit-bit_and zero a b =
    rw (div-one a, div-one b, div-one (bit_and a b)) (omega (arith, bit_and_step a b))
digit-bit_and (suc k) a b =
    let half : bit_and a b / 2 ≡ bit_and (a / 2) (b / 2) = omega (arith, bit_and_step a b) in
    rw (digit-suc k a, digit-suc k b, digit-suc k (bit_and a b), half)
      (digit-bit_and k (a / 2) (b / 2))

pub digit-bit_or : (k a b : ℕ) → digit k (bit_or a b) ≡ max (digit k a) (digit k b)
digit-bit_or zero a b =
    rw (div-one a, div-one b, div-one (bit_or a b)) (omega (arith, bit_or_step a b))
digit-bit_or (suc k) a b =
    let half : bit_or a b / 2 ≡ bit_or (a / 2) (b / 2) = omega (arith, bit_or_step a b) in
    rw (digit-suc k a, digit-suc k b, digit-suc k (bit_or a b), half)
      (digit-bit_or k (a / 2) (b / 2))

pub digit-bit_xor : (k a b : ℕ) → digit k (bit_xor a b) ≡ differ (digit k a) (digit k b)
digit-bit_xor zero a b =
    let d = differ-lt (a % 2) (b % 2) (omega arith) (omega arith) in
    rw (div-one a, div-one b, div-one (bit_xor a b)) (omega (arith, bit_xor_step a b, d))
digit-bit_xor (suc k) a b =
    let d = differ-lt (a % 2) (b % 2) (omega arith) (omega arith) in
    let half : bit_xor a b / 2 ≡ bit_xor (a / 2) (b / 2) = omega (arith, bit_xor_step a b, d) in
    rw (digit-suc k a, digit-suc k b, digit-suc k (bit_xor a b), half)
      (digit-bit_xor k (a / 2) (b / 2))

-- `x & 2 ^ k` is digit `k` in its place.
pub bit_and-two-pow : (k x : ℕ) → bit_and x (2 ^ k) ≡ digit k x * 2 ^ k
bit_and-two-pow zero x = rw (div-one x) (omega (arith, bit_and_step x 1, bit_and-zero (x / 2)))
bit_and-two-pow (suc k) x =
    let mask : 2 ^ suc k / 2 ≡ 2 ^ k = omega (arith, pow-suc 2 k) in
    let even : 2 ^ suc k % 2 ≡ 0 = omega (arith, pow-suc 2 k) in
    let step = bit_and_step x (2 ^ suc k) in
    let rest = bit_and-two-pow k (x / 2) in
    step ∙ rw (mask, even, rest, digit-suc k x) (omega (arith, shift_suc (digit k (x / 2)) k))
