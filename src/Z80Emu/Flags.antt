-- ===== src/Z80Emu/Flags.antt =====
-- crates/z80_emu/src/lib.rs: the flag byte as eight digits, and what a sequence of `set_flag` on it
-- does.
use nes_to_sms.Base.{
  ℕ, ◌^◌, ◌<◌, ◌==◌, ltb, ◌≡◌, refl, ◌∙◌, arith, Bool, true, false, ◌&&◌, min, max, digit,
  digit-bit_and, digit-bit_or, bit_and, List, [], ◌∷◌, if◌then◌else◌,
}
use nes_to_sms.Oracle6502.Cpu as oracle
use nes_to_sms.Oracle6502.Status as status
use nes_to_sms.Z80Emu.Cpu.{put_flag, undoc, bit_of}

-- The flags `(k, v)` set in the byte `f`, the last of the list first.
abbrev pub put_all : List (ℕ × Bool) → ℕ → ℕ
put_all [] f = f
put_all ((k, v) ∷ flags) f = put_flag (2 ^ k) v (put_all flags f)

-- What digit `j` is then.
abbrev pub found : ℕ → List (ℕ × Bool) → ℕ → ℕ
found j [] f = digit j f
found j ((k, v) ∷ flags) f = let rest = found j flags f in if j == k then bit_of v else rest

abbrev pub all_digits : List (ℕ × Bool) → Bool
all_digits [] = true
all_digits ((k, v) ∷ flags) = ltb k 8 && all_digits flags

put_flag-lt : (k : ℕ) (v : Bool) (p : ℕ) → k < 8 → p < 256 → put_flag (2 ^ k) v p < 256
unfolding put_flag oracle.put_flag
put_flag-lt k v p hk hp = status.put_flag-lt k v p hk hp

digit-put_flag :
    (j k : ℕ) (v : Bool) (p : ℕ)
    → j < 8
    → k < 8
    → p < 256
    → digit j (put_flag (2 ^ k) v p) ≡ (if j == k then bit_of v else digit j p)
unfolding put_flag oracle.put_flag
digit-put_flag j k true p hj hk hp = status.digit-put_flag j k true p hj hk hp
digit-put_flag j k false p hj hk hp = status.digit-put_flag j k false p hj hk hp

pub put_all-lt :
    (flags : List (ℕ × Bool)) (f : ℕ) → all_digits flags ≡ true → f < 256 → put_all flags f < 256
put_all-lt [] f h hf = hf
put_all-lt ((k, v) ∷ flags) f h hf =
    put_flag-lt k v (put_all flags f) (ground arith) (put_all-lt flags f (ground arith) hf)

-- Each digit of the byte is the last value given to it, or the old digit.
pub digit-put_all :
    (flags : List (ℕ × Bool)) (f j : ℕ)
    → all_digits flags ≡ true
    → f < 256
    → j < 8
    → digit j (put_all flags f) ≡ found j flags f
digit-put_all [] f j h hf hj = refl
digit-put_all ((k, v) ∷ flags) f j h hf hj =
    let tail : all_digits flags ≡ true = ground arith in
    digit-put_flag j k v (put_all flags f) hj (ground arith) (put_all-lt flags f tail hf)
    ∙ rw (digit-put_all flags f j tail hf hj) refl

-- Digits 3 and 5 come from the result, the others stay.
pub digit-undoc :
    (j r f : ℕ)
    → digit j (undoc r f) ≡ max (min (digit j f) (digit j 0xd7)) (min (digit j r) (digit j 0x28))
unfolding undoc
digit-undoc j r f =
    digit-bit_or j (bit_and f 0xd7) (bit_and r 0x28)
    ∙ rw (digit-bit_and j f 0xd7, digit-bit_and j r 0x28) refl
