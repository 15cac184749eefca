-- ===== src/NesRom/Header.antt =====
-- crates/nes_rom/src/lib.rs: the iNES / NES 2.0 header and the slices of a ROM image.
use nes_to_sms.Base.{
  ℕ, ◌+◌, ◌*◌, ◌/◌, ◌%◌, ◌^◌, ◌==◌, ltb, bit_and, bit_or, has_bits, Bool, true, false, not, ◌&&◌,
  ◌||◌, List, get_or, length, take, drop, Option, none, some, Result, ok, err, ◌>>=◌,
  is_power_of_two, if◌then◌else◌,
}

abbrev pub prg_bank_size : ℕ
prg_bank_size = 16 * 1024

abbrev pub chr_bank_size : ℕ
chr_bank_size = 8 * 1024

abbrev pub trainer_size : ℕ
trainer_size = 512

abbrev pub header_size : ℕ
header_size = 16

pub data Mirroring : Type 0 where
  horizontal vertical four_screen : Mirroring

pub data NametableMirroring : Type 0 where
  both_vertical both_horizontal one_screen_lower one_screen_upper : NametableMirroring

pub data HeaderKind : Type 0 where
  ines nes2 : HeaderKind

abbrev pub is_nes2 : HeaderKind → Bool
is_nes2 nes2 = true
is_nes2 ines = false

abbrev pub is_four_screen : Mirroring → Bool
is_four_screen four_screen = true
is_four_screen _ = false

-- A whole, non-zero, power-of-two number of windows.
unfoldable pub windowed_bank_count : ℕ → ℕ → Option ℕ
windowed_bank_count len window =
    if len == 0 || (window == 0 || (not (len % window == 0) || not (is_power_of_two len)))
    then none
    else some (len / window)

pub record Header : Type 0 where
  pub kind : HeaderKind
  pub prg_banks : ℕ
  pub chr_banks : ℕ
  pub prg_ram_size : ℕ
  pub prg_nvram_size : ℕ
  pub chr_ram_size : ℕ
  pub chr_nvram_size : ℕ
  pub mapper : ℕ
  pub submapper : ℕ
  pub mirroring : Mirroring
  pub has_trainer : Bool
  pub has_battery : Bool

abbrev pub prg_len : Header → ℕ
prg_len h = h.prg_banks * prg_bank_size

abbrev pub chr_len : Header → ℕ
chr_len h = h.chr_banks * chr_bank_size

unfoldable pub nes2_ram_size : ℕ → ℕ
nes2_ram_size nibble = if nibble == 0 then 0 else 64 * 2 ^ nibble

pub data ParseError : Type 0 where
  too_short bad_magic : ParseError
  truncated : ℕ → ℕ → ParseError

abbrev pub byte_at : List ℕ → ℕ → ℕ
byte_at rom i = get_or rom i 0

unfoldable pub has_magic : List ℕ → Bool
has_magic rom =
    byte_at rom 0 == b'N'
    && (byte_at rom 1 == b'E' && (byte_at rom 2 == b'S' && byte_at rom 3 == 0x1a))

unfoldable pub header_mirroring : ℕ → Mirroring
header_mirroring flags6 =
    if has_bits flags6 0x08
    then four_screen
    else (if has_bits flags6 0x01 then vertical else horizontal)

-- The two halves of `match kind`.
unfoldable pub nes2_header : List ℕ → Header
unfolding nes2_ram_size header_mirroring
nes2_header rom = record {
  kind = nes2;
  prg_banks = bit_or (bit_and (byte_at rom 9) 0x0f * 256) (byte_at rom 4);
  chr_banks = bit_or (bit_and (byte_at rom 9 / 16) 0x0f * 256) (byte_at rom 5);
  prg_ram_size = nes2_ram_size (bit_and (byte_at rom 10) 0x0f);
  prg_nvram_size = nes2_ram_size (byte_at rom 10 / 16);
  chr_ram_size = nes2_ram_size (bit_and (byte_at rom 11) 0x0f);
  chr_nvram_size = nes2_ram_size (byte_at rom 11 / 16);
  mapper =
      bit_or (bit_or (bit_and (byte_at rom 8) 0x0f * 256) (bit_and (byte_at rom 7) 0xf0))
        (byte_at rom 6 / 16);
  submapper = bit_and (byte_at rom 8 / 16) 0x0f;
  mirroring = header_mirroring (byte_at rom 6);
  has_trainer = has_bits (byte_at rom 6) 0x04;
  has_battery = has_bits (byte_at rom 6) 0x02;
}

unfoldable pub ines_header : List ℕ → Header
unfolding header_mirroring
ines_header rom = record {
  kind = ines;
  prg_banks = byte_at rom 4;
  chr_banks = byte_at rom 5;
  prg_ram_size = if byte_at rom 8 == 0 then 8 * 1024 else byte_at rom 8 * 8 * 1024;
  prg_nvram_size = 0;
  chr_ram_size = if byte_at rom 5 == 0 then 8 * 1024 else 0;
  chr_nvram_size = 0;
  mapper = bit_or (bit_or 0 (bit_and (byte_at rom 7) 0xf0)) (byte_at rom 6 / 16);
  submapper = 0;
  mirroring = header_mirroring (byte_at rom 6);
  has_trainer = has_bits (byte_at rom 6) 0x04;
  has_battery = has_bits (byte_at rom 6) 0x02;
}

unfoldable pub parse_header : List ℕ → Result ParseError Header
parse_header rom =
    if ltb (length rom) header_size
    then err too_short
    else (if not (has_magic rom)
        then err bad_magic
        else (if bit_and (byte_at rom 7) 0x0c == 0x08
            then ok (nes2_header rom)
            else ok (ines_header rom)))

pub record Image : Type 0 where
  pub header : Header
  pub trainer : Option (List ℕ)
  pub prg : List ℕ
  pub chr : List ℕ

abbrev pub trainer_len : Header → ℕ
trainer_len h = if h.has_trainer then trainer_size else 0

abbrev pub prg_start : Header → ℕ
prg_start h = header_size + trainer_len h

abbrev pub prg_end : Header → ℕ
prg_end h = prg_start h + prg_len h

abbrev pub chr_end : Header → ℕ
chr_end h = prg_end h + chr_len h

-- `&rom[start..end]`.
abbrev pub slice : List ℕ → ℕ → ℕ → List ℕ
slice rom start len = take len (drop start rom)

unfoldable pub image_of : List ℕ → Header → Image
image_of rom h = record {
  header = h;
  trainer = if h.has_trainer then some (slice rom header_size trainer_size) else none;
  prg = slice rom (prg_start h) (prg_len h);
  chr = slice rom (prg_end h) (chr_len h);
}

unfoldable pub parse : List ℕ → Result ParseError Image
parse rom = do
  h ← parse_header rom
  if ltb (length rom) (chr_end h)
      then err (truncated (chr_end h) (length rom))
      else ok (image_of rom h)
