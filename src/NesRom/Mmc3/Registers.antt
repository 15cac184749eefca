-- ===== src/NesRom/Mmc3/Registers.antt =====
-- crates/nes_rom/src/mmc3.rs: the eight register addresses.
use nes_to_sms.Base.{
  ℕ, zero, suc, ◌+◌, ◌*◌, ◌/◌, ◌%◌, ◌^◌, ◌<◌, ◌≤◌, ltb, bit_and, true, false, some, ◌≡◌, ◌⊎◌, refl,
  ap, sym, ◌∙◌, arith, Bool-cases, inl, inr, bit_and_step, bit_and_mask,
}
use native.Mathlib.Nat.{pow-suc, mul_assoc, mul_comm, div-div-eq-div-mul}
use nes_to_sms.NesRom.Mmc3.{Mmc3, write_decoded, write_register}

bit_and_even : (a b : ℕ) → bit_and a (2 * b) ≡ 2 * bit_and (a / 2) b
bit_and_even a b =
    let half : 2 * b / 2 ≡ b = omega arith in
    let even : 2 * b % 2 ≡ 0 = omega arith in bit_and_step a (2 * b) ∙ rw (half, even) (omega arith)

bit_and_shift : (k a b : ℕ) → bit_and a (2 ^ k * b) ≡ 2 ^ k * bit_and (a / 2 ^ k) b
bit_and_shift zero a b =
    let number : 1 * b ≡ b = omega arith in
    let same : a / 1 ≡ a = omega arith in rw (number, same) (omega arith)
bit_and_shift (suc k) a b =
    let mask : 2 ^ suc k * b ≡ 2 * (2 ^ k * b) =
      omega (arith, ap (λ (t : ℕ). t * b) (pow-suc 2 k), mul_assoc (2 ^ k) 2 b) in
    let places : a / 2 / 2 ^ k ≡ a / 2 ^ suc k =
      div-div-eq-div-mul a 2 (2 ^ k)
      ∙ ap (λ (t : ℕ). a / t) (mul_comm 2 (2 ^ k) ∙ sym (pow-suc 2 k)) in
    ap (bit_and a) mask
    ∙ bit_and_even a (2 ^ k * b)
    ∙ ap (λ (t : ℕ). 2 * t) (bit_and_shift k (a / 2) b)
    ∙ rw places (
        omega (
          arith,
          pow-suc 2 k,
          ap (λ (t : ℕ). t * bit_and (a / 2 ^ suc k) b) (pow-suc 2 k),
          mul_assoc (2 ^ k) 2 (bit_and (a / 2 ^ suc k) b),
        ))

-- `& 0xe001` keeps the three highest bits and the lowest.
bit_and-port : (a : ℕ) → a < 65536 → bit_and a 0xe001 ≡ 8192 * (a / 8192) + a % 2
bit_and-port a h =
    omega (arith, bit_and_step a 0xe001, bit_and_shift 12 (a / 2) 7, bit_and_mask 3 (a / 2 / 4096))

write_decoded-some :
    (port value : ℕ) (m : Mmc3) (hi lo : ℕ)
    → 4 ≤ hi
    → hi < 8
    → lo < 2
    → port ≡ 8192 * hi + lo
    → (n : Mmc3) × (write_decoded port value m ≡ some n)
unfolding write_decoded
write_decoded-some port value m hi lo a b c e = elim ports [
  | inl p ↦ rw p (_, refl)
  | inr (inl p) ↦ rw p (_, refl)
  | inr (inr (inl p)) ↦ rw p (_, refl)
  | inr (inr (inr (inl p))) ↦ rw p (_, refl)
  | inr (inr (inr (inr (inl p)))) ↦ rw p (_, refl)
  | inr (inr (inr (inr (inr (inl p))))) ↦ rw p (_, refl)
  | inr (inr (inr (inr (inr (inr (inl p)))))) ↦ rw p (_, refl)
  | inr (inr (inr (inr (inr (inr (inr p)))))) ↦ rw p (_, refl)
]
  where
    ports :
        (port ≡ 0x8000)
        ⊎ ((port ≡ 0x8001)
            ⊎ ((port ≡ 0xa000)
                ⊎ ((port ≡ 0xa001)
                    ⊎ ((port ≡ 0xc000) ⊎ ((port ≡ 0xc001) ⊎ ((port ≡ 0xe000) ⊎ (port ≡ 0xe001)))))))
    ports = ground arith

-- A write changes nothing below $8000, and from $8000 on is one of the eight registers: the arm that
-- would panic is not reached. The register depends on the three highest address bits and the lowest.
pub write_register-decoded :
    (addr value : ℕ) (m : Mmc3)
    → addr < 65536
    → ((addr < 0x8000) × (write_register addr value m ≡ some (false, m)))
      ⊎ ((0x8000 ≤ addr)
          × ((n : Mmc3) × (write_register addr value m ≡ some (true, n))
              × (write_decoded (8192 * (addr / 8192) + addr % 2) value m ≡ some n)))
unfolding write_register
write_register-decoded addr value m h = elim (Bool-cases (ltb addr 0x8000)) [
  | inl below ↦ inl (ground arith, rw below refl)
  | inr above ↦
      let (n, done) =
        write_decoded-some (8192 * (addr / 8192) + addr % 2) value m (addr / 8192) (addr % 2)
          (ground arith) (omega arith) (omega arith) refl in
      inr (ground arith, (n, rw (above, bit_and-port addr h, done) refl, done))
]
