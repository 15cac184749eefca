-- ===== src/NesRom/Axrom.antt =====
-- crates/nes_rom/src/axrom.rs: AxROM.
pub mod Banking
use nes_to_sms.Base.{
  ℕ, ◌+◌, ◌-◌, ◌*◌, ◌/◌, ◌%◌, ◌==◌, ltb, leb, bit_and, u8, Bool, true, false, not, ◌&&◌, ◌||◌, List,
  [], ◌∷◌, Option, none, some, Result, ok, err, ◌>>◌, refuse_if, is_power_of_two, if◌then◌else◌,
}
use nes_to_sms.NesRom.Header.{Header, is_four_screen, prg_len, chr_len}

abbrev pub prg_window_size : ℕ
prg_window_size = 32 * 1024

pub data AxromError : Type 0 where
  unsupported_mapper : ℕ → AxromError
  unsupported_trainer unsupported_four_screen unsupported_chr_rom : AxromError
  invalid_prg_layout : ℕ → AxromError
  header_payload_mismatch : AxromError

pub data AxromNametable : Type 0 where
  lower upper : AxromNametable

pub record Axrom : Type 0 where
  pub bank_count : ℕ
  pub bank : ℕ
  pub nametable : ℕ

unfoldable pub new : Header → ℕ → Result AxromError Axrom
new h len =
    refuse_if (not (h.mapper == 7)) (unsupported_mapper h.mapper)
    >> (refuse_if h.has_trainer unsupported_trainer
        >> (refuse_if (is_four_screen h.mirroring) unsupported_four_screen
            >> (refuse_if (not (chr_len h == 0)) unsupported_chr_rom
                >> (refuse_if (not (len % prg_window_size == 0) || not (is_power_of_two len))
                      (invalid_prg_layout len)
                    >> (refuse_if
                          (not (
                            leb 1 (u8 (len / prg_window_size))
                            && leb (u8 (len / prg_window_size)) 8))
                          (invalid_prg_layout len)
                        >> (refuse_if (not (prg_len h == len)) header_payload_mismatch
                            >> ok (record {
                              bank_count = u8 (len / prg_window_size);
                              bank = 0;
                              nametable = 0;
                            })))))))

unfoldable pub nametable : Axrom → AxromNametable
nametable a = if a.nametable == 0 then lower else upper

unfoldable pub write_register : ℕ → ℕ → Axrom → Axrom
write_register addr value a = record a {
  bank = value % a.bank_count;
  nametable = bit_and (value / 16) 1;
}

unfoldable pub cpu_to_prg_offset : Axrom → ℕ → Option ℕ
cpu_to_prg_offset a addr =
    if ltb addr 0x8000 then none else some (a.bank * prg_window_size + (addr - 0x8000))
