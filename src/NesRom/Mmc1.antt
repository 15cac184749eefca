-- ===== src/NesRom/Mmc1.antt =====
-- crates/nes_rom/src/mmc1.rs: MMC1.
pub mod Banking
pub mod Serial
use nes_to_sms.Base.{
  ℕ, suc, ◌+◌, ◌-◌, ◌*◌, ◌/◌, ◌%◌, ◌^◌, ◌==◌, ltb, leb, bit_and, bit_or, not8, has_bits, u8, u16,
  Bool, true, false, not, ◌&&◌, ◌||◌, List, [], ◌∷◌, Option, none, some, Result, ok, err, ◌>>=◌,
  ◌>>◌, refuse_if, ok_or, is_power_of_two, if◌then◌else◌,
}
use nes_to_sms.NesRom.Header.{
  Header, is_nes2, is_four_screen, prg_len, chr_len, prg_bank_size, windowed_bank_count,
  NametableMirroring, both_vertical, both_horizontal, one_screen_lower, one_screen_upper,
}

abbrev pub chr_window_size : ℕ
chr_window_size = 4 * 1024

pub data Mmc1Error : Type 0 where
  unsupported_mapper : ℕ → Mmc1Error
  requires_nes2 : Mmc1Error
  unsupported_submapper : ℕ → Mmc1Error
  unsupported_trainer unsupported_four_screen : Mmc1Error
  invalid_prg_layout : ℕ → Mmc1Error
  unsupported_chr_rom header_payload_mismatch : Mmc1Error
  unsupported_large_prg : ℕ → Mmc1Error

pub record Mmc1 : Type 0 where
  pub prg_bank_count : ℕ
  pub has_battery : Bool
  pub shift : ℕ
  pub shift_count : ℕ
  pub control : ℕ
  pub chr0 : ℕ
  pub chr1 : ℕ
  pub prg : ℕ
  pub chr_bank_count_4k : ℕ

-- `chr_bank_count_4k` of the constructor: 0 for CHR-RAM.
unfoldable pub chr_banks_4k : ℕ → Result Mmc1Error ℕ
chr_banks_4k len =
    let banks = ok_or (windowed_bank_count len chr_window_size) unsupported_chr_rom in
    if len == 0 then ok 0 else banks >>= λ n. ok (u16 n)

unfoldable pub at_power_on : ℕ → Bool → ℕ → Mmc1
at_power_on banks battery chr_banks = record {
  prg_bank_count = banks;
  has_battery = battery;
  shift = 0;
  shift_count = 0;
  control = 0x0c;
  chr0 = 0;
  chr1 = 0;
  prg = 0;
  chr_bank_count_4k = chr_banks;
}

-- The guards on the PRG layout, and the new state.
unfoldable pub with_prg : Header → ℕ → ℕ → Result Mmc1Error Mmc1
with_prg h len chr_banks =
    refuse_if (not (len % prg_bank_size == 0) || not (is_power_of_two len)) (invalid_prg_layout len)
    >> (refuse_if (not (leb 2 (u8 (len / prg_bank_size)) && leb (u8 (len / prg_bank_size)) 16))
          (invalid_prg_layout len)
        >> (refuse_if (ltb (16 * prg_bank_size) len) (unsupported_large_prg len)
            >> (refuse_if (not (prg_len h == len)) header_payload_mismatch
                >> ok (at_power_on (u8 (len / prg_bank_size)) h.has_battery chr_banks))))

unfoldable pub new : Header → ℕ → Result Mmc1Error Mmc1
new h len =
    refuse_if (not (h.mapper == 1)) (unsupported_mapper h.mapper)
    >> (refuse_if (not (is_nes2 h.kind)) requires_nes2
        >> (refuse_if (not (h.submapper == 0 || h.submapper == 5))
              (unsupported_submapper h.submapper)
            >> (refuse_if h.has_trainer unsupported_trainer
                >> (refuse_if (is_four_screen h.mirroring) unsupported_four_screen
                    >> (chr_banks_4k (chr_len h) >>= with_prg h len)))))

unfoldable pub mirroring : Mmc1 → NametableMirroring
mirroring m =
    let field = bit_and m.control 0x03 in
    if field == 0
    then one_screen_lower
    else (if field == 1
        then one_screen_upper
        else (if field == 2 then both_vertical else both_horizontal))

-- The register that the address bits 13 and 14 select takes the data.
unfoldable pub commit : ℕ → ℕ → Mmc1 → Mmc1
commit addr bits m =
    let register = bit_and (addr / 2 ^ 13) 0x03 in
    if register == 0
    then record m { control = bits }
    else (if register == 1
        then record m { chr0 = bits }
        else (if register == 2 then record m { chr1 = bits } else record m { prg = bits }))

-- `(self.shift >> 1) | ((value & 1) << 4)`.
unfoldable pub shift_in : ℕ → ℕ → ℕ
shift_in shift value = bit_or (shift / 2) (bit_and value 1 * 16)

abbrev pub empty_port : Mmc1 → Mmc1
empty_port m = record m { shift = 0; shift_count = 0 }

-- `write_register` after its assertion on the address.
unfoldable pub write_port : ℕ → ℕ → Mmc1 → Mmc1
write_port addr value m =
    if has_bits value 0x80
    then record (empty_port m) { control = bit_or m.control 0x0c }
    else (let shifted = shift_in m.shift value in
        let count = u8 (m.shift_count + 1) in
        if ltb count 5
        then record m { shift = shifted; shift_count = count }
        else empty_port (commit addr (bit_and shifted 0x1f) m))

-- `none` where `debug_assert!(cpu_addr >= 0x8000)` panics.
unfoldable pub write_register : ℕ → ℕ → Mmc1 → Option Mmc1
write_register addr value m = if ltb addr 0x8000 then none else some (write_port addr value m)

abbrev pub window_offset : ℕ → ℕ
window_offset addr = if ltb addr 0xc000 then addr - 0x8000 else addr - 0xc000

-- The 16 KiB bank that modes 2 and 3 show at an address.
unfoldable pub bank16 : Mmc1 → ℕ → ℕ
bank16 m addr =
    let bank = bit_and m.prg 0x0f % m.prg_bank_count in
    if bit_and (m.control / 4) 0x03 == 2
    then (if ltb addr 0xc000 then 0 else bank)
    else (if ltb addr 0xc000 then bank else m.prg_bank_count - 1)

unfoldable pub cpu_to_prg_offset : Mmc1 → ℕ → Option ℕ
cpu_to_prg_offset m addr =
    let mode = bit_and (m.control / 4) 0x03 in
    if ltb addr 0x8000
    then none
    else (if mode == 0 || mode == 1
        then some (
            bit_and (bit_and m.prg 0x0f) (not8 1) % m.prg_bank_count * prg_bank_size
            + (addr - 0x8000))
        else some (bank16 m addr * prg_bank_size + window_offset addr))

unfoldable pub chr_bank_4k : Mmc1 → ℕ → ℕ
chr_bank_4k m window =
    let raw =
      if not (has_bits m.control 0x10)
      then bit_or (bit_and m.chr0 (not8 1)) (bit_and window 1)
      else (if window == 0 then m.chr0 else m.chr1) in
    if ltb 0 m.chr_bank_count_4k then u8 (raw % m.chr_bank_count_4k) else raw

unfoldable pub chr_offset : Mmc1 → ℕ → ℕ
chr_offset m addr =
    chr_bank_4k m (u8 (bit_and (addr / 2 ^ 12) 1)) * chr_window_size + bit_and addr 0x0fff

unfoldable pub prg_ram_enabled : Mmc1 → Bool
prg_ram_enabled m = not (has_bits m.prg 0x10)
