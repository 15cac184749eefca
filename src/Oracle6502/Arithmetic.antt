-- ===== src/Oracle6502/Arithmetic.antt =====
-- crates/oracle_6502/src/lib.rs: `do_adc`, `do_sbc` and `do_cmp` against integer arithmetic.
use nes_to_sms.Base.{
  ℕ, ◌+◌, ◌-◌, ◌*◌, ◌/◌, ◌%◌, ◌^◌, ◌<◌, ◌==◌, ltb, leb, ◌≡◌, refl, ap, ◌∙◌, arith, Bool, true, not,
  ◌&&◌, all_below, eq_by_table, has_bits, u8, bit_and, bit_xor, digit, digit-bit_and, digit-bit_xor,
  differ-eq-mod, bit_xor-lt, bit_and_mask, min, if◌then◌else◌,
}
use nes_to_sms.Oracle6502.Cpu.{Cpu, bit_of, put_flag, adc_overflow, do_adc, do_sbc, do_cmp, set_nz}
use nes_to_sms.Oracle6502.Status.{digit-put_flag, put_flag-lt, has_bits-digit}

-- A byte as a signed number, 128 added.
abbrev pub biased : ℕ → ℕ
biased b = (b + 128) % 256

-- The sum of two signed bytes and a carry does not fit a signed byte.
abbrev pub overflows : ℕ → ℕ → ℕ → Bool
overflows a m carry = let s = biased a + biased m + carry in not (leb 128 s && ltb s 384)

min_bits : (x y : ℕ) → x < 2 → y < 2 → min x y ≡ (x + y) / 2
min_bits x y hx hy = omega arith

adc_overflow-digit :
    (a m t : ℕ)
    → a < 256
    → m < 256
    → t < 512
    → bit_of (adc_overflow a m t)
      ≡ (1 - (digit 7 a + digit 7 m) % 2 + (digit 7 a + digit 7 t) % 2) / 2
unfolding adc_overflow
adc_overflow-digit a m t ha hm ht =
    let x = bit_xor a m in
    let wide : x < 2 ^ 16 = bit_xor-lt 16 a m (omega arith) (omega arith) in
    let inverted : digit 7 (0xffff - x) ≡ 1 - digit 7 x = omega arith in
    let first : digit 7 x ≡ (digit 7 a + digit 7 m) % 2 =
      digit-bit_xor 7 a m ∙ differ-eq-mod (digit 7 a) (digit 7 m) (omega arith) (omega arith) in
    let second : digit 7 (bit_xor a t) ≡ (digit 7 a + digit 7 t) % 2 =
      digit-bit_xor 7 a t ∙ differ-eq-mod (digit 7 a) (digit 7 t) (omega arith) (omega arith) in
    has_bits-digit 7 _
    ∙ digit-bit_and 7 (0xffff - x) (bit_xor a t)
    ∙ rw (inverted, first, second) (omega arith)

adc_overflow-overflows :
    (a m c : ℕ)
    → a < 256
    → m < 256
    → c < 2
    → bit_of (adc_overflow a m (a + m + c)) ≡ bit_of (overflows a m c)
adc_overflow-overflows a m c ha hm hc =
    adc_overflow-digit a m (a + m + c) ha hm (omega arith) ∙ ground arith

-- The status byte after C, V, N and Z are written, in the order of `do_adc`.
abbrev adc_status : Bool → Bool → Bool → Bool → ℕ → ℕ
adc_status c v n z p = put_flag 2 z (put_flag 128 n (put_flag 64 v (put_flag 1 c p)))

digit-adc_status :
    (j : ℕ) (c v n z : Bool) (p : ℕ)
    → j < 8
    → p < 256
    → digit j (adc_status c v n z p) ≡ (
        if j == 1
        then bit_of z
        else (if j == 7
            then bit_of n
            else (if j == 6 then bit_of v else (if j == 0 then bit_of c else digit j p))))
digit-adc_status j c v n z p hj hp =
    let p1 = put_flag 1 c p in
    let p2 = put_flag 64 v p1 in
    let p3 = put_flag 128 n p2 in
    let h1 : p1 < 256 = put_flag-lt 0 c p (omega arith) hp in
    let h2 : p2 < 256 = put_flag-lt 6 v p1 (omega arith) h1 in
    let h3 : p3 < 256 = put_flag-lt 7 n p2 (omega arith) h2 in
    digit-put_flag j 1 z p3 hj (omega arith) h3
    ∙ rw
        (
          digit-put_flag j 7 n p2 hj (omega arith) h2,
          digit-put_flag j 6 v p1 hj (omega arith) h1,
          digit-put_flag j 0 c p hj (omega arith) hp,
        )
        refl

-- What an addition with carry promises of the CPU `c` that it turns into `d`.
pub record IsSum (m carry : ℕ) (c d : Cpu) : Type 0 where
  pub byte : d.a < 256
  pub value : d.a + 256 * digit 0 d.p ≡ c.a + m + carry
  pub negative : digit 7 d.p ≡ digit 7 d.a
  pub zero_flag : digit 1 d.p ≡ bit_of (d.a == 0)
  pub overflow : digit 6 d.p ≡ bit_of (overflows c.a m carry)
  pub others : (j : ℕ) → 1 < j → j < 6 → digit j d.p ≡ digit j c.p
  pub registers : (d.x ≡ c.x) × (d.y ≡ c.y) × (d.sp ≡ c.sp) × (d.pc ≡ c.pc)

-- On byte operands, ADC leaves the sum of the accumulator, the operand and the carry in the
-- accumulator and the new carry, and sets N, Z and the signed overflow; D, I, B, U and the other
-- registers stay.
pub do_adc-IsSum :
    (m : ℕ) (c : Cpu) → m < 256 → c.a < 256 → c.p < 256 → IsSum m (digit 0 c.p) c (do_adc m c)
unfolding do_adc set_nz
do_adc-IsSum m c hm ha hp =
    let carry : bit_and c.p 1 ≡ digit 0 c.p = bit_and_mask 1 c.p ∙ omega arith in
    let t = c.a + m + bit_and c.p 1 in
    let r = bit_and t 0xff in
    let low : r ≡ t % 256 = bit_and_mask 8 t in
    let carries = ltb 0xff t in
    let overflowed = adc_overflow c.a m t in
    let status = λ (j : ℕ) (h : j < 8).
      digit-adc_status j carries overflowed (has_bits r 0x80) (r == 0) c.p h hp in
    record {
      byte = omega (arith, low);
      value = rw (status 0 (omega arith)) (ground (arith, low, carry));
      negative = status 7 (omega arith) ∙ has_bits-digit 7 r;
      zero_flag = status 1 (omega arith);
      overflow =
          status 6 (omega arith)
          ∙ ap (λ (k : ℕ). bit_of (adc_overflow c.a m (c.a + m + k))) carry
          ∙ adc_overflow-overflows c.a m (digit 0 c.p) ha hm (omega arith);
      others = λ j lo hi. status j (omega arith) ∙ ground arith;
      registers = (refl, refl, refl, refl);
    }

bit_xor_table : all_below 256 (λ m. bit_xor m 0xff == 255 - m) ≡ true
unfolding all_below
bit_xor_table = refl

-- On byte operands, with the borrow `1 - C`, SBC leaves the accumulator minus the operand minus the
-- borrow modulo 256 and clears C exactly when 256 was borrowed; N and Z follow the result, and V
-- tells whether the signed difference leaves the range of a byte.
pub do_sbc-difference :
    (m : ℕ) (c : Cpu)
    → m < 256
    → c.a < 256
    → c.p < 256
    → ((do_sbc m c).a + m + (1 - digit 0 c.p) ≡ c.a + 256 * (1 - digit 0 (do_sbc m c).p))
      × (digit 7 (do_sbc m c).p ≡ digit 7 (do_sbc m c).a)
      × (digit 1 (do_sbc m c).p ≡ bit_of ((do_sbc m c).a == 0))
      × (digit 6 (do_sbc m c).p
          ≡ bit_of (
              let s = biased c.a + 256 - biased m + digit 0 c.p - 1 in
              not (leb 128 s && ltb s 384)))
unfolding do_sbc
do_sbc-difference m c hm ha hp =
    let inverse : bit_xor m 0xff ≡ 255 - m = eq_by_table 256 _ _ m bit_xor_table hm in
    let sum = do_adc-IsSum (255 - m) c (omega arith) ha hp in
    rw inverse (ground (arith, sum.value), sum.negative, sum.zero_flag, sum.overflow ∙ ground arith)

-- The status byte after C, N and Z are written, in the order of `do_cmp`.
digit-cmp_status :
    (j : ℕ) (c n z : Bool) (p : ℕ)
    → j < 8
    → p < 256
    → digit j (put_flag 2 z (put_flag 128 n (put_flag 1 c p))) ≡ (
        if j == 1
        then bit_of z
        else (if j == 7 then bit_of n else (if j == 0 then bit_of c else digit j p)))
digit-cmp_status j c n z p hj hp =
    let p1 = put_flag 1 c p in
    let p2 = put_flag 128 n p1 in
    let h1 : p1 < 256 = put_flag-lt 0 c p (omega arith) hp in
    let h2 : p2 < 256 = put_flag-lt 7 n p1 (omega arith) h1 in
    digit-put_flag j 1 z p2 hj (omega arith) h2
    ∙ rw (digit-put_flag j 7 n p1 hj (omega arith) h1, digit-put_flag j 0 c p hj (omega arith) hp)
        refl

-- On bytes, a comparison sets C exactly when the register is not below the operand, Z exactly
-- when they are equal, and N to the top bit of the difference modulo 256; V, D, I, B, U and all
-- registers stay.
pub do_cmp-order :
    (reg m : ℕ) (c : Cpu)
    → reg < 256
    → m < 256
    → c.p < 256
    → (digit 0 (do_cmp reg m c).p ≡ bit_of (leb m reg))
      × (digit 1 (do_cmp reg m c).p ≡ bit_of (reg == m))
      × (digit 7 (do_cmp reg m c).p ≡ digit 7 ((reg + 256 - m) % 256))
      × ((j : ℕ) → 1 < j → j < 7 → digit j (do_cmp reg m c).p ≡ digit j c.p)
      × ((do_cmp reg m c).a ≡ c.a)
      × ((do_cmp reg m c).x ≡ c.x)
      × ((do_cmp reg m c).y ≡ c.y)
      × ((do_cmp reg m c).sp ≡ c.sp)
      × ((do_cmp reg m c).pc ≡ c.pc)
unfolding do_cmp
do_cmp-order reg m c hr hm hp =
    let d = u8 (reg + 256 - m) in
    let status =
      λ (j : ℕ) (h : j < 8). digit-cmp_status j (leb m reg) (has_bits d 0x80) (reg == m) c.p h hp in
    (
      status 0 (omega arith),
      status 1 (omega arith),
      status 7 (omega arith) ∙ has_bits-digit 7 d,
      λ j lo hi. status j (omega arith) ∙ ground arith,
      refl,
      refl,
      refl,
      refl,
      refl,
    )
