-- ===== src/NesRom/Fixed.antt =====
-- crates/nes_rom/src/lib.rs: the address map without a policy agrees with the policies' map in the
-- fixed window.
use nes_to_sms.Base.{ℕ, ◌*◌, ◌<◌, ◌≤◌, some, ok, ◌≡◌, refl, arith}
use nes_to_sms.NesRom.Header.{prg_bank_size}
use nes_to_sms.NesRom.Policy.{
  MapperPolicy, nrom, uxrom, mmc1, cnrom, bank_count, is_banked, in_range, nrom_offset,
  banked_offset, mapped_offset,
}
use nes_to_sms.NesRom.Policy
use nes_to_sms.NesRom.Vectors
use nes_to_sms.NesRom.Windows.{
  IsBank, IsBanks, two, four, eight, sixteen, Serves, nrom_one, nrom_two, uxrom_banks_of,
  mmc1_banks_of, cnrom_one, cnrom_two, in_range-ok,
}

one_bank :
    (addr : ℕ)
    → 0xc000 ≤ addr
    → Vectors.cpu_to_prg_offset prg_bank_size addr ≡ some (nrom_offset prg_bank_size addr)
unfolding Vectors.cpu_to_prg_offset nrom_offset
one_bank addr low = ground arith

whole_window :
    (addr : ℕ)
    → 0xc000 ≤ addr
    → Vectors.cpu_to_prg_offset (2 * prg_bank_size) addr
      ≡ some (nrom_offset (2 * prg_bank_size) addr)
unfolding Vectors.cpu_to_prg_offset nrom_offset
whole_window addr low = ground arith

last_bank :
    {n : ℕ} (addr base : ℕ)
    → IsBanks n
    → 0xc000 ≤ addr
    → Vectors.cpu_to_prg_offset (n * prg_bank_size) addr ≡ some (banked_offset n addr base)
unfolding Vectors.cpu_to_prg_offset banked_offset
last_bank addr base two low = ground arith
last_bank addr base four low = ground arith
last_bank addr base eight low = ground arith
last_bank addr base sixteen low = ground arith

fixed_offset :
    {len : ℕ} {p : MapperPolicy} (addr bank : ℕ)
    → Serves len p
    → 0xc000 ≤ addr
    → IsBank p bank
    → (o : ℕ) × (mapped_offset p addr bank ≡ ok o) × (Vectors.cpu_to_prg_offset len addr ≡ some o)
unfolding mapped_offset is_banked bank_count
fixed_offset addr bank (nrom_one e) low b = (_, refl, rw e (one_bank addr low))
fixed_offset addr bank (nrom_two e) low b = (_, refl, rw e (whole_window addr low))
fixed_offset addr bank (cnrom_one n c e) low b = (_, refl, rw e (one_bank addr low))
fixed_offset addr bank (cnrom_two n c e) low b = (_, refl, rw e (whole_window addr low))
fixed_offset addr bank (uxrom_banks_of {n} c banks e) low b =
    rw (in_range-ok n bank (b refl))
      (_, refl, rw e (last_bank addr (bank * prg_bank_size) banks low))
fixed_offset addr bank (mmc1_banks_of {n} banks e) low b =
    rw (in_range-ok n bank (b refl))
      (_, refl, rw e (last_bank addr (bank * prg_bank_size) banks low))

-- Under a policy that serves a PRG of some length, the map that takes only the length and the map
-- of the policy, with any bank that exists, give every address from $C000 to $FFFF the same offset.
pub cpu_to_prg_offset-fixed :
    {len : ℕ} {p : MapperPolicy} (addr bank : ℕ)
    → Serves len p
    → 0xc000 ≤ addr
    → addr < 65536
    → IsBank p bank
    → (o : ℕ) × (Policy.cpu_to_prg_offset p addr bank ≡ ok (some o))
      × (Vectors.cpu_to_prg_offset len addr ≡ some o)
unfolding Policy.cpu_to_prg_offset
cpu_to_prg_offset-fixed addr bank s low high b =
    let (o, found, same) = fixed_offset addr bank s low b in (o, ground (arith, found), same)
