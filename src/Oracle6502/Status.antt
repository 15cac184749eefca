-- ===== src/Oracle6502/Status.antt =====
-- crates/oracle_6502/src/lib.rs: the status byte as eight digits, and what the flag operations do
-- to it.
use native.Mathlib.Nat.{one-le-pow}
use nes_to_sms.Base.{
  ℕ, zero, suc, ◌+◌, ◌*◌, ◌/◌, ◌%◌, ◌^◌, ◌<◌, ◌==◌, ltb, ==_iff, ◌≡◌, ◌≢◌, refl, ap, ◌∙◌, arith,
  if◌then◌else◌, not, Bool, true, false, ◌&&◌, not8, has_bits, all_below, all_below_sound, digit,
  two-pow-lt, bit_and-two-pow, bit_or-lt, bit_and-lt,
}
use nes_to_sms.Oracle6502.Cpu.{bit_of, put_flag}
use nes_to_sms.Oracle6502.Execute.{pulled_status}

-- The byte `p` with digit `k` replaced by `v`.
abbrev with_digit : ℕ → Bool → ℕ → ℕ
with_digit k v p = p / 2 ^ suc k * 2 ^ suc k + bit_of v * 2 ^ k + p % 2 ^ k

put_table :
    all_below 256 (λ p. all_below 8 (λ k.
      put_flag (2 ^ k) true p == with_digit k true p
      && put_flag (2 ^ k) false p == with_digit k false p))
    ≡ true
unfolding all_below put_flag
put_table = refl

pub put_flag-eq-with_digit :
    (k : ℕ) (v : Bool) (p : ℕ) → k < 8 → p < 256 → put_flag (2 ^ k) v p ≡ with_digit k v p
put_flag-eq-with_digit k v p hk hp = by_value v
  where
    here :
        (put_flag (2 ^ k) true p == with_digit k true p
          && put_flag (2 ^ k) false p == with_digit k false p)
        ≡ true
    here =
        all_below_sound 8 _ k
          (all_below_sound 256
            (λ q. all_below 8 (λ j.
              put_flag (2 ^ j) true q == with_digit j true q
              && put_flag (2 ^ j) false q == with_digit j false q))
            p put_table hp)
          hk

    by_value : (w : Bool) → put_flag (2 ^ k) w p ≡ with_digit k w p
    by_value true = (==_iff _ _).0 (ground (arith, here))
    by_value false = (==_iff _ _).0 (ground (arith, here))

get_table :
    all_below 256 (λ p. all_below 8 (λ k. all_below 8 (λ j.
      digit j (with_digit k true p) == (if j == k then 1 else digit j p)
      && digit j (with_digit k false p) == (if j == k then 0 else digit j p))))
    ≡ true
unfolding all_below
get_table = refl

-- In a status byte, a flag that is written reads back, and the other flags keep their value.
pub digit-put_flag :
    (j k : ℕ) (v : Bool) (p : ℕ)
    → j < 8
    → k < 8
    → p < 256
    → digit j (put_flag (2 ^ k) v p) ≡ (if j == k then bit_of v else digit j p)
digit-put_flag j k v p hj hk hp = ap (digit j) (put_flag-eq-with_digit k v p hk hp) ∙ by_value v
  where
    row : ℕ → ℕ → ℕ → Bool
    row q i l =
        digit l (with_digit i true q) == (if l == i then 1 else digit l q)
        && digit l (with_digit i false q) == (if l == i then 0 else digit l q)

    here : row p k j ≡ true
    here =
        all_below_sound 8 (row p k) j
          (all_below_sound 8 (λ i. all_below 8 (row p i)) k
            (all_below_sound 256 (λ q. all_below 8 (λ i. all_below 8 (row q i))) p get_table hp) hk)
          hj

    by_value : (w : Bool) → digit j (with_digit k w p) ≡ (if j == k then bit_of w else digit j p)
    by_value true = (==_iff _ _).0 (ground (arith, here))
    by_value false = (==_iff _ _).0 (ground (arith, here))

pub put_flag-lt : (k : ℕ) (v : Bool) (p : ℕ) → k < 8 → p < 256 → put_flag (2 ^ k) v p < 256
unfolding put_flag
put_flag-lt k true p hk hp = bit_or-lt 8 p (2 ^ k) hp (two-pow-lt k hk)
put_flag-lt k false p hk hp = bit_and-lt 8 p (not8 (2 ^ k)) hp

bit_of-test : (k d : ℕ) → d < 2 → bit_of (not (d * 2 ^ k == 0)) ≡ d
bit_of-test k zero h = ground arith
bit_of-test k (suc zero) h = ground (arith, one-le-pow k 2)
bit_of-test k (suc (suc d)) h = absurd (omega arith)

-- A test of one bit reads that digit.
pub has_bits-digit : (k x : ℕ) → bit_of (has_bits x (2 ^ k)) ≡ digit k x
has_bits-digit k x = rw (bit_and-two-pow k x) (bit_of-test k (digit k x) (omega arith))

-- The status register holds a byte with bit 5 set and bit 4 clear.
abbrev pub IsStatus : ℕ → Type 0
IsStatus p = (p < 256) × (digit 5 p ≡ 1) × (digit 4 p ≡ 0)

pub put_flag-IsStatus :
    (k : ℕ) (v : Bool) (p : ℕ)
    → k < 8
    → k ≢ 4
    → k ≢ 5
    → IsStatus p
    → IsStatus (put_flag (2 ^ k) v p)
put_flag-IsStatus k v p hk n4 n5 s = (
  put_flag-lt k v p hk s.0,
  digit-put_flag 5 k v p (omega arith) hk s.0 ∙ ground arith,
  digit-put_flag 4 k v p (omega arith) hk s.0 ∙ ground arith,
)

pulled_table :
    all_below 256 (λ v.
      ltb (pulled_status v) 256
      && (digit 5 (pulled_status v) == 1 && digit 4 (pulled_status v) == 0))
    ≡ true
unfolding all_below pulled_status
pulled_table = refl

-- Whatever byte is pulled, the status register stays one.
pub pulled_status-IsStatus : (v : ℕ) → v < 256 → IsStatus (pulled_status v)
pulled_status-IsStatus v h =
    let here =
      all_below_sound 256
        (λ w.
          ltb (pulled_status w) 256
          && (digit 5 (pulled_status w) == 1 && digit 4 (pulled_status w) == 0))
        v pulled_table h in
    ground (arith, here)
