-- ===== src/NesRom/Selected.antt =====
-- crates/nes_rom/src/lib.rs: the bank that a write selects, and where the map goes with it.
use nes_to_sms.Base.{
  ℕ, ◌-◌, ◌*◌, ◌%◌, ◌<◌, ◌≤◌, bit_and, some, Result, ok, err, ◌≡◌, refl, ◌⊎◌, inl, inr, arith,
  bit_and_mask,
}
use nes_to_sms.NesRom.Header.{prg_bank_size}
use nes_to_sms.NesRom.Policy.{
  UxromBusConflicts, no_conflict, and_conflict, MapperPolicy, MapperPolicyError, nrom, uxrom, mmc1,
  cnrom, unsupported_mapper, is_banked, bank_count, cpu_to_prg_offset, effective_write,
  selected_bank_from_write,
}
use nes_to_sms.NesRom.Windows.{
  IsBanks, two, four, eight, sixteen, Serves, nrom_one, nrom_two, uxrom_banks_of, mmc1_banks_of,
  cnrom_one, cnrom_two, IsBank, IsBanks-lt, in_range-ok, cpu_to_prg_offset-lt,
}

IsBanks-mask : {n : ℕ} (a : ℕ) → IsBanks n → bit_and a (n - 1) ≡ a % n
IsBanks-mask a two = bit_and_mask 1 a
IsBanks-mask a four = bit_and_mask 2 a
IsBanks-mask a eight = bit_and_mask 3 a
IsBanks-mask a sixteen = bit_and_mask 4 a

uxrom_write :
    {n : ℕ} (c : UxromBusConflicts) (raw rom : ℕ)
    → IsBanks n
    → selected_bank_from_write (uxrom n c) raw rom ≡ ok (effective_write c raw rom % n)
unfolding selected_bank_from_write
uxrom_write {n} c raw rom banks =
    let mask = IsBanks-mask (effective_write c raw rom) banks in
    rw (mask, in_range-ok n (effective_write c raw rom % n) (omega (arith, IsBanks-lt banks))) refl

-- What a bank-select write answers on each board: NROM and CNROM have no PRG bank to select, UxROM
-- selects by the written value, with AND conflicts by its common bits with the ROM byte under it, modulo
-- the bank count, and MMC1 refuses.
pub data Selects (raw rom : ℕ) : MapperPolicy → Result MapperPolicyError ℕ → Type 0 where
  nrom_window : (len : ℕ) → Selects raw rom (nrom len) (ok 0)
  cnrom_window : (len n : ℕ) (c : UxromBusConflicts) → Selects raw rom (cnrom len n c) (ok 0)
  written_bank : (n : ℕ) → raw % n < n → Selects raw rom (uxrom n no_conflict) (ok (raw % n))
  common_bank :
      (n : ℕ)
      → bit_and raw rom % n < n
      → Selects raw rom (uxrom n and_conflict) (ok (bit_and raw rom % n))
  serial_port : (n : ℕ) → Selects raw rom (mmc1 n) (err (unsupported_mapper 1))

-- An address that the map sends into the PRG, under the bank that an answer selects.
abbrev pub Lands : ℕ → MapperPolicy → ℕ → Result MapperPolicyError ℕ → Type 0
Lands len p addr answer =
    (bank : ℕ) × (o : ℕ) × (answer ≡ ok bank)
    × (cpu_to_prg_offset p addr bank ≡ ok (some o))
    × (o < len)

selected-Lands :
    {len : ℕ} {p : MapperPolicy} (addr bank : ℕ) (answer : Result MapperPolicyError ℕ)
    → Serves len p
    → 0x8000 ≤ addr
    → addr < 65536
    → answer ≡ ok bank
    → IsBank p bank
    → Lands len p addr answer
selected-Lands addr bank answer s low high e b =
    let (o, found, bound) = cpu_to_prg_offset-lt addr bank s low high b in
    (bank, o, e, found, bound)

uxrom_write-Lands :
    {len n : ℕ} (c : UxromBusConflicts) (raw rom addr : ℕ)
    → IsBanks n
    → len ≡ n * prg_bank_size
    → 0x8000 ≤ addr
    → addr < 65536
    → let answer = selected_bank_from_write (uxrom n c) raw rom in
      Selects raw rom (uxrom n c) answer
      × (((k : ℕ) × (uxrom n c ≡ mmc1 k)) ⊎ Lands len (uxrom n c) addr answer)
unfolding effective_write bank_count
uxrom_write-Lands {len} {n} no_conflict raw rom addr banks e low high =
    let bound : raw % n < n = omega (arith, IsBanks-lt banks) in
    let write = uxrom_write no_conflict raw rom banks in
    (
      rw write (written_bank n bound),
      inr (
          selected-Lands addr (raw % n) _ (uxrom_banks_of no_conflict banks e) low high write
            λ b. bound),
    )
uxrom_write-Lands {len} {n} and_conflict raw rom addr banks e low high =
    let bound : bit_and raw rom % n < n = omega (arith, IsBanks-lt banks) in
    let write = uxrom_write and_conflict raw rom banks in
    (
      rw write (common_bank n bound),
      inr (
          selected-Lands addr (bit_and raw rom % n) _ (uxrom_banks_of and_conflict banks e) low high
            write λ b. bound),
    )

-- Under a policy that serves a PRG of some length, a bank-select write selects bank 0 on NROM and
-- CNROM, the written value modulo the bank count on UxROM without bus conflicts, the AND of that value
-- and the ROM byte modulo the bank count on UxROM with AND conflicts, and is refused on MMC1. Where it is not
-- refused, the map with the selected bank gives every address from $8000 to $FFFF an offset in the PRG.
pub selected_bank_from_write-Selects :
    {len : ℕ} {p : MapperPolicy} (raw rom addr : ℕ)
    → Serves len p
    → 0x8000 ≤ addr
    → addr < 65536
    → Selects raw rom p (selected_bank_from_write p raw rom)
      × (((n : ℕ) × (p ≡ mmc1 n)) ⊎ Lands len p addr (selected_bank_from_write p raw rom))
unfolding selected_bank_from_write is_banked
selected_bank_from_write-Selects raw rom addr (nrom_one e) low high =
    (nrom_window _, inr (selected-Lands addr 0 _ (nrom_one e) low high refl λ b. cc))
selected_bank_from_write-Selects raw rom addr (nrom_two e) low high =
    (nrom_window _, inr (selected-Lands addr 0 _ (nrom_two e) low high refl λ b. cc))
selected_bank_from_write-Selects raw rom addr (cnrom_one k d e) low high =
    (cnrom_window _ k d, inr (selected-Lands addr 0 _ (cnrom_one k d e) low high refl λ b. cc))
selected_bank_from_write-Selects raw rom addr (cnrom_two k d e) low high =
    (cnrom_window _ k d, inr (selected-Lands addr 0 _ (cnrom_two k d e) low high refl λ b. cc))
selected_bank_from_write-Selects raw rom addr (mmc1_banks_of {n} banks e) low high =
    (serial_port n, inl (n, refl))
selected_bank_from_write-Selects raw rom addr (uxrom_banks_of {n} d banks e) low high =
    uxrom_write-Lands d raw rom addr banks e low high
