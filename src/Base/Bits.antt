-- ===== src/Base/Bits.antt =====
-- Bytes, and facts about the bit operations checked over a whole range of values.
use Prim.Native.Nat.{ℕ, zero, suc, ◌-◌, ◌<◌, ◌%◌, bit_and}
use mathlib.Core.Path.{◌≡◌}
use mathlib.Core.Bool.{Bool, true, not, ◌&&◌}
use native.Mathlib.Omega.{arith}
use nes_to_sms.Base.Tests.{ltb, ◌==◌, ==_iff}

abbrev pub u8 : ℕ → ℕ
u8 n = n % 256

abbrev pub u16 : ℕ → ℕ
u16 n = n % 65536

-- `!x` on a byte.
abbrev pub not8 : ℕ → ℕ
not8 x = 255 - x

-- `x & mask != 0`.
abbrev pub has_bits : ℕ → ℕ → Bool
has_bits x mask = not (bit_and x mask == 0)

-- Every value below a bound, by evaluation.
unfoldable pub all_below : (bound : ℕ) (test : ℕ → Bool) → Bool
all_below zero test = true
all_below (suc top) test = test top && all_below top test

pub all_below_sound :
    (bound : ℕ) (test : ℕ → Bool) (v : ℕ) → all_below bound test ≡ true → v < bound → test v ≡ true
unfolding all_below
all_below_sound zero test v passed below = absurd (omega arith)
all_below_sound (suc top) test v passed below = ground (arith, all_below_sound top test v)

-- Two functions that agree on each value of the range.
pub eq_by_table :
    (n : ℕ) (f g : ℕ → ℕ) (x : ℕ) → all_below n (λ y. f y == g y) ≡ true → x < n → f x ≡ g x
eq_by_table n f g x h lt = (==_iff (f x) (g x)).0 (all_below_sound n (λ y. f y == g y) x h lt)

-- A bound that holds at each value of the range.
pub lt_by_table :
    (n : ℕ) (f : ℕ → ℕ) (b x : ℕ) → all_below n (λ y. ltb (f y) b) ≡ true → x < n → f x < b
lt_by_table n f b x h lt =
    let test : ltb (f x) b ≡ true = all_below_sound n (λ y. ltb (f y) b) x h lt in ground arith
