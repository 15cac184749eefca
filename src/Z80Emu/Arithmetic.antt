-- ===== src/Z80Emu/Arithmetic.antt =====
-- crates/z80_emu/src/lib.rs: `alu_add`, `alu_sub` and `alu_cp` against integer arithmetic.
use nes_to_sms.Base.{
  ℕ, ◌+◌, ◌-◌, ◌*◌, ◌/◌, ◌%◌, ◌^◌, ◌<◌, ◌==◌, ltb, leb, ◌≡◌, refl, ◌∙◌, arith, Bool, true, false,
  not, ◌&&◌, ◌||◌, u8, all_below, all_below_sound, not8, has_bits, bit_and, bit_xor, digit,
  digit-bit_and, digit-bit_xor, differ-eq-mod, bit_xor-lt, bit_and_mask, List, [], ◌∷◌,
  if◌then◌else◌,
}
use nes_to_sms.Oracle6502.Arithmetic.{biased, overflows}
use nes_to_sms.Oracle6502.Cpu as oracle
use nes_to_sms.Oracle6502.Status as status
use nes_to_sms.Z80Emu.Cpu.{
  Cpu, undoc, bit_of, carry_in, difference, add_flags, sub_flags, alu_add, alu_sub, sub_a, alu_cp,
}
use nes_to_sms.Z80Emu.Bounds.{add_flags-lt, sub_flags-lt}
use nes_to_sms.Z80Emu.Flags.{put_all, digit-put_all, digit-undoc}

same_bit : (b : Bool) → bit_of b ≡ oracle.bit_of b
same_bit true = refl
same_bit false = refl

pub has_bits-digit : (k x : ℕ) → bit_of (has_bits x (2 ^ k)) ≡ digit k x
has_bits-digit k x = same_bit _ ∙ status.has_bits-digit k x

-- Bit 7 of `!(a ^ m) & (a ^ t)` and of `(a ^ m) & (a ^ t)`.
same_sign :
    (a m t : ℕ)
    → a < 256
    → m < 256
    → t < 256
    → bit_of (has_bits (bit_and (not8 (bit_xor a m)) (bit_xor a t)) 0x80)
      ≡ (1 - (digit 7 a + digit 7 m) % 2 + (digit 7 a + digit 7 t) % 2) / 2
same_sign a m t ha hm ht =
    let x = bit_xor a m in
    let wide : x < 2 ^ 8 = bit_xor-lt 8 a m ha hm in
    let inverted : digit 7 (not8 x) ≡ 1 - digit 7 x = omega arith in
    let first : digit 7 x ≡ (digit 7 a + digit 7 m) % 2 =
      digit-bit_xor 7 a m ∙ differ-eq-mod (digit 7 a) (digit 7 m) (omega arith) (omega arith) in
    let second : digit 7 (bit_xor a t) ≡ (digit 7 a + digit 7 t) % 2 =
      digit-bit_xor 7 a t ∙ differ-eq-mod (digit 7 a) (digit 7 t) (omega arith) (omega arith) in
    has_bits-digit 7 _
    ∙ digit-bit_and 7 (not8 x) (bit_xor a t)
    ∙ rw (inverted, first, second) (omega arith)

other_sign :
    (a m t : ℕ)
    → a < 256
    → m < 256
    → t < 256
    → bit_of (has_bits (bit_and (bit_xor a m) (bit_xor a t)) 0x80)
      ≡ ((digit 7 a + digit 7 m) % 2 + (digit 7 a + digit 7 t) % 2) / 2
other_sign a m t ha hm ht =
    let first : digit 7 (bit_xor a m) ≡ (digit 7 a + digit 7 m) % 2 =
      digit-bit_xor 7 a m ∙ differ-eq-mod (digit 7 a) (digit 7 m) (omega arith) (omega arith) in
    let second : digit 7 (bit_xor a t) ≡ (digit 7 a + digit 7 t) % 2 =
      digit-bit_xor 7 a t ∙ differ-eq-mod (digit 7 a) (digit 7 t) (omega arith) (omega arith) in
    has_bits-digit 7 _
    ∙ digit-bit_and 7 (bit_xor a m) (bit_xor a t)
    ∙ rw (first, second) (omega arith)

add_overflow :
    (a m c : ℕ)
    → a < 256
    → m < 256
    → c < 2
    → bit_of (has_bits (bit_and (not8 (bit_xor a m)) (bit_xor a (u8 (a + m + c)))) 0x80)
      ≡ bit_of (overflows a m c)
add_overflow a m c ha hm hc = same_sign a m (u8 (a + m + c)) ha hm (omega arith) ∙ ground arith

-- The difference of two signed bytes and a borrow does not fit a signed byte.
abbrev pub underflows : ℕ → ℕ → ℕ → Bool
underflows a m c = let s = biased a + 256 - biased m - c in not (leb 128 s && ltb s 384)

sub_overflow :
    (a m c : ℕ)
    → a < 256
    → m < 256
    → c < 2
    → bit_of (has_bits (bit_and (bit_xor a m) (bit_xor a (difference a m c))) 0x80)
      ≡ bit_of (underflows a m c)
sub_overflow a m c ha hm hc = other_sign a m (difference a m c) ha hm (omega arith) ∙ ground arith

-- What an arithmetic operation promises of the flags `f` and its result.
pub record IsResult (result carry subtract overflow half f : ℕ) : Type 0 where
  pub byte : f < 256
  pub carried : digit 0 f ≡ carry
  pub subtracted : digit 1 f ≡ subtract
  pub overflowed : digit 2 f ≡ overflow
  pub half_carried : digit 4 f ≡ half
  pub zero_flag : digit 6 f ≡ bit_of (result == 0)
  pub sign : digit 7 f ≡ digit 7 result
  pub copies : (digit 3 f ≡ digit 3 result) × (digit 5 f ≡ digit 5 result)

add_flags-IsResult :
    (a m c : ℕ)
    → a < 256
    → m < 256
    → c < 2
    → IsResult
        (u8 (a + m + c))
        ((a + m + c) / 256)
        0
        (bit_of (overflows a m c))
        ((a % 16 + m % 16 + c) / 16)
        (add_flags a m c)
unfolding add_flags
add_flags-IsResult a m c ha hm hc =
    let result = u8 (a + m + c) in
    let v = has_bits (bit_and (not8 (bit_xor a m)) (bit_xor a result)) 0x80 in
    let half = ltb 0x0f (bit_and a 0x0f + bit_and m 0x0f + c) in
    let flags =
      (0, ltb 0xff (a + m + c))
      ∷ (2, v)
      ∷ (4, half)
      ∷ (6, result == 0)
      ∷ (7, has_bits result 0x80)
      ∷ [] in
    let f = put_all flags 0 in
    let status = λ (j : ℕ) (h : j < 8). digit-put_all flags 0 j refl (omega arith) h in
    let shown = λ (j : ℕ). digit-undoc j result f in
    record {
      byte = add_flags-lt a m c;
      carried = shown 0 ∙ ground (arith, status 0 (omega arith));
      subtracted = shown 1 ∙ ground (arith, status 1 (omega arith));
      overflowed = shown 2 ∙ ground (arith, status 2 (omega arith), add_overflow a m c ha hm hc);
      half_carried =
          shown 4 ∙ ground (arith, status 4 (omega arith), bit_and_mask 4 a, bit_and_mask 4 m);
      zero_flag = shown 6 ∙ ground (arith, status 6 (omega arith));
      sign = shown 7 ∙ ground (arith, status 7 (omega arith), has_bits-digit 7 result);
      copies = (
        shown 3 ∙ ground (arith, status 3 (omega arith)),
        shown 5 ∙ ground (arith, status 5 (omega arith)),
      );
    }

sub_flags-IsResult :
    (a m c : ℕ)
    → a < 256
    → m < 256
    → c < 2
    → IsResult
        (difference a m c)
        (bit_of (ltb a (m + c)))
        1
        (bit_of (underflows a m c))
        (bit_of (ltb (a % 16) (m % 16 + c)))
        (sub_flags a m c)
unfolding sub_flags
sub_flags-IsResult a m c ha hm hc =
    let result = difference a m c in
    let v = has_bits (bit_and (bit_xor a m) (bit_xor a result)) 0x80 in
    let half = ltb (bit_and a 0x0f) (bit_and m 0x0f + c) in
    let flags : List (ℕ × Bool) =
      (0, ltb a (m + c))
      ∷ (1, true)
      ∷ (2, v)
      ∷ (4, half)
      ∷ (6, result == 0)
      ∷ (7, has_bits result 0x80)
      ∷ [] in
    let f = put_all flags 0 in
    let status = λ (j : ℕ) (h : j < 8). digit-put_all flags 0 j refl (omega arith) h in
    let shown = λ (j : ℕ). digit-undoc j result f in
    record {
      byte = sub_flags-lt a m c;
      carried = shown 0 ∙ ground (arith, status 0 (omega arith));
      subtracted = shown 1 ∙ ground (arith, status 1 (omega arith));
      overflowed = shown 2 ∙ ground (arith, status 2 (omega arith), sub_overflow a m c ha hm hc);
      half_carried =
          shown 4 ∙ ground (arith, status 4 (omega arith), bit_and_mask 4 a, bit_and_mask 4 m);
      zero_flag = shown 6 ∙ ground (arith, status 6 (omega arith));
      sign = shown 7 ∙ ground (arith, status 7 (omega arith), has_bits-digit 7 result);
      copies = (
        shown 3 ∙ ground (arith, status 3 (omega arith)),
        shown 5 ∙ ground (arith, status 5 (omega arith)),
      );
    }

-- The carry that an operation with or without carry takes in.
abbrev pub taken : Bool → Cpu → ℕ
taken with_carry r = if with_carry then digit 0 r.f else 0

carry_in-taken : (c : Bool) (r : Cpu) → carry_in c r ≡ taken c r
carry_in-taken true r = has_bits-digit 0 r.f
carry_in-taken false r = refl

-- On byte operands, ADD and ADC leave the accumulator plus the operand plus the carry modulo 256, the
-- carry out in C, the carry out of bit 3 in H, the signed overflow in PV, the sign and zero of the
-- result in S and Z, its bits 3 and 5 in flags 3 and 5, and N clear; the other registers stay.
pub alu_add-IsResult :
    (m : ℕ) (with_carry : Bool) (r : Cpu)
    → m < 256
    → r.a < 256
    → let c = taken with_carry r in
      let d = alu_add m with_carry r in
      (d.a + 256 * digit 0 d.f ≡ r.a + m + c)
      × IsResult d.a
          ((r.a + m + c) / 256)
          0
          (bit_of (overflows r.a m c))
          ((r.a % 16 + m % 16 + c) / 16)
          d.f
      × (record d { a = r.a; f = r.f } ≡ r)
unfolding alu_add
alu_add-IsResult m w r hm ha =
    let flags = add_flags-IsResult r.a m (taken w r) ha hm (ground arith) in
    rw (carry_in-taken w r) (omega (arith, flags.carried), flags, refl)

-- On byte operands, SUB and SBC leave the accumulator minus the operand minus the carry modulo 256, the
-- borrow in C, the borrow of bit 3 in H, the signed overflow in PV, the sign and zero of the result in
-- S and Z, its bits 3 and 5 in flags 3 and 5, and N set; the other registers stay.
pub sub_a-IsResult :
    (m : ℕ) (with_carry : Bool) (r : Cpu)
    → m < 256
    → r.a < 256
    → let c = taken with_carry r in
      let d = sub_a m with_carry r in
      (d.a + m + c ≡ r.a + 256 * digit 0 d.f)
      × IsResult d.a
          (bit_of (ltb r.a (m + c)))
          1
          (bit_of (underflows r.a m c))
          (bit_of (ltb (r.a % 16) (m % 16 + c)))
          d.f
      × (record d { a = r.a; f = r.f } ≡ r)
unfolding sub_a alu_sub
sub_a-IsResult m w r hm ha =
    let flags = sub_flags-IsResult r.a m (taken w r) ha hm (ground arith) in
    rw (carry_in-taken w r) (ground (arith, flags.carried), flags, refl)

kept_table :
    all_below 8 (λ j. (j == 3 || j == 5) || (digit j 0xd7 == 1 && digit j 0x28 == 0)) ≡ true
unfolding all_below
kept_table = refl

undoc_keeps : (j r f : ℕ) → j < 8 → not (j == 3 || j == 5) ≡ true → digit j (undoc r f) ≡ digit j f
undoc_keeps j r f hj other =
    let masks : (digit j 0xd7 == 1 && digit j 0x28 == 0) ≡ true = ground (
      arith,
      all_below_sound 8 (λ j. (j == 3 || j == 5) || (digit j 0xd7 == 1 && digit j 0x28 == 0)) j
          kept_table hj,
    ) in
    let kept : digit j 0xd7 ≡ 1 = ground arith in
    let gone : digit j 0x28 ≡ 0 = ground arith in digit-undoc j r f ∙ rw (kept, gone) (omega arith)

-- On bytes, CP leaves every flag as SUB does but flags 3 and 5, which are the operand's, and leaves
-- every register but the flags, so that C tells whether the accumulator is below the operand and Z
-- whether the two are equal.
pub alu_cp-order :
    (m : ℕ) (r : Cpu)
    → m < 256
    → r.a < 256
    → ((j : ℕ)
        → j < 8
        → not (j == 3 || j == 5) ≡ true
        → digit j (alu_cp m r).f ≡ digit j (sub_a m false r).f)
      × (digit 3 (alu_cp m r).f ≡ digit 3 m)
      × (digit 5 (alu_cp m r).f ≡ digit 5 m)
      × (digit 0 (alu_cp m r).f ≡ bit_of (ltb r.a m))
      × (digit 6 (alu_cp m r).f ≡ bit_of (r.a == m))
      × (record (alu_cp m r) { f = r.f } ≡ r)
unfolding alu_cp sub_a alu_sub
alu_cp-order m r hm ha =
    let flags = sub_flags-IsResult r.a m 0 ha hm (omega arith) in
    let f = sub_flags r.a m 0 in
    let shown = λ (j : ℕ). digit-undoc j m f in
    (
      λ j hj other. undoc_keeps j m f hj other,
      shown 3 ∙ ground arith,
      shown 5 ∙ ground arith,
      shown 0 ∙ ground (arith, flags.carried),
      shown 6 ∙ ground (arith, flags.zero_flag),
      refl,
    )
