-- ===== src/NesRom/Tests.antt =====
-- crates/nes_rom: the theorems on headers, policies and boards at concrete cartridges.
use nes_to_sms.Base.{
  ℕ, zero, suc, ◌+◌, ◌*◌, ◌/◌, ◌%◌, ◌<◌, ◌≤◌, ◌≡◌, refl, arith, true, false, List, [], ◌∷◌, ◌++◌,
  length, take, drop, get_elem?, some, ok, ◌⊎◌, bit_or, leb, if◌then◌else◌, is_power_of_two,
}
use nes_to_sms.NesRom.Header.{
  Header, nes2, horizontal, header_size, image_of, parse, parse_header, has_magic, ines_header,
  nes2_header, trainer_len, prg_len, chr_len, chr_end, windowed_bank_count,
}
use nes_to_sms.NesRom.Image.{trainer_bytes, parse-append, HeaderFits, parse_header-HeaderFits}
use nes_to_sms.NesRom.Policy.{
  MapperPolicy, uxrom, mmc1, and_conflict, UxromBusConflicts, MapperPolicyError, unsupported_mapper,
  resolve_mapper_policy, resolve_mapper_policy_oracle, uxrom_policy, uxrom_submapper, uxrom_banks,
  is_bank_count, nrom_offset, analysis_view, selected_bank_from_write, effective_write, bank_count,
  is_banked,
}
use nes_to_sms.NesRom.Policy
use nes_to_sms.NesRom.Windows.{
  Serves, uxrom_banks_of, four, IsBank, resolve_mapper_policy_oracle-Serves,
  resolve_mapper_policy-oracle, cpu_to_prg_offset-lt,
}
use nes_to_sms.NesRom.Vectors
use nes_to_sms.NesRom.Selected.{Selects, Lands, selected_bank_from_write-Selects}
use nes_to_sms.NesRom.Fixed.{cpu_to_prg_offset-fixed}
use nes_to_sms.NesRom.View.{analysis_view-cpu_to_prg_offset}
use nes_to_sms.NesRom.Axrom.{Axrom}
use nes_to_sms.NesRom.Axrom
use nes_to_sms.NesRom.Axrom.Banking.{new-writes-cpu_to_prg_offset}
use nes_to_sms.NesRom.Mmc1.{Mmc1}
use nes_to_sms.NesRom.Mmc1
use nes_to_sms.NesRom.Mmc1.Banking.{new-serial-cpu_to_prg_offset}
use nes_to_sms.NesRom.Mmc1.Serial.{writes, InWindow, reset-five_writes}
use nes_to_sms.NesRom.Mmc3.{Mmc3}
use nes_to_sms.NesRom.Mmc3
use nes_to_sms.NesRom.Mmc3.Banking.{
  Event, write, observe, m2_edge, after, new-after-cpu_to_prg_offset,
}
use nes_to_sms.NesRom.Mmc3.Irq.{clocks, m2_edges, clocks-irq_pending, m2_edges-observe_ppu_address}
use nes_to_sms.NesRom.Mmc3.Chr.{new-HasChr, ppu_to_chr_offset-lt}
use nes_to_sms.NesRom.Mmc3.Registers.{write_register-decoded}

zeros : ℕ → List ℕ
zeros zero = []
zeros (suc n) = 0 ∷ zeros n

length-zeros : (n : ℕ) → length (zeros n) ≡ n
unfolding zeros
length-zeros zero = refl
length-zeros (suc n) = omega (arith, length-zeros n)

-- An iNES image that has a trainer of 512 bytes and declares no banks.
abbrev rom : List ℕ
rom = b'N' ∷ b'E' ∷ b'S' ∷ 0x1a ∷ 0 ∷ 0 ∷ 0x04 ∷ 0 ∷ 0 ∷ 0 ∷ 0 ∷ 0 ∷ 0 ∷ 0 ∷ 0 ∷ 0 ∷ zeros 512

rom-parsed : parse rom ≡ ok (image_of rom (ines_header rom))
unfolding parse parse_header has_magic ines_header nes2_header zeros
rom-parsed = refl

parse-append_example :
    let image = image_of rom (ines_header rom) in
    (take header_size rom
        ++ (trainer_bytes image.trainer
            ++ (image.prg ++ (image.chr ++ drop (chr_end image.header) rom)))
      ≡ rom)
    × (length (trainer_bytes image.trainer) ≡ trainer_len image.header)
    × (length image.prg ≡ prg_len image.header)
    × (length image.chr ≡ chr_len image.header)
parse-append_example = parse-append rom rom-parsed

-- Mapper 4, battery, 32 PRG and 32 CHR banks.
abbrev smb3 : List ℕ
smb3 = b'N' ∷ b'E' ∷ b'S' ∷ 0x1a ∷ 32 ∷ 32 ∷ 0x42 ∷ 0x08 ∷ 0 ∷ 0 ∷ 0 ∷ 0 ∷ 0 ∷ 0 ∷ 0 ∷ 0 ∷ []

smb3-header : parse_header smb3 ≡ ok (nes2_header smb3)
unfolding parse_header has_magic
smb3-header = refl

parse_header-HeaderFits_example : HeaderFits (nes2_header smb3)
parse_header-HeaderFits_example = parse_header-HeaderFits smb3 (omega arith) smb3-header

abbrev header : ℕ → ℕ → ℕ → ℕ → Header
header mapper submapper prg chr = record {
  kind = nes2;
  prg_banks = prg;
  chr_banks = chr;
  prg_ram_size = 0;
  prg_nvram_size = 0;
  chr_ram_size = 0;
  chr_nvram_size = 0;
  mapper = mapper;
  submapper = submapper;
  mirroring = horizontal;
  has_trainer = false;
  has_battery = false;
}

abbrev uxrom_4 : MapperPolicy
uxrom_4 = uxrom 4 and_conflict

uxrom_4-resolved : resolve_mapper_policy (header 2 2 4 0) 65536 ≡ ok uxrom_4
unfolding resolve_mapper_policy uxrom_policy uxrom_submapper uxrom_banks is_bank_count
uxrom_4-resolved = refl

resolve_mapper_policy-oracle_example :
    resolve_mapper_policy_oracle (header 2 2 4 0) 65536 ≡ ok uxrom_4
resolve_mapper_policy-oracle_example =
    resolve_mapper_policy-oracle (header 2 2 4 0) 65536 uxrom_4-resolved

uxrom_4-oracle : resolve_mapper_policy_oracle (header 2 2 4 0) 65536 ≡ ok uxrom_4
unfolding resolve_mapper_policy_oracle resolve_mapper_policy uxrom_policy uxrom_submapper
    uxrom_banks is_bank_count
uxrom_4-oracle = refl

resolve_mapper_policy_oracle-Serves_example : Serves 65536 uxrom_4
resolve_mapper_policy_oracle-Serves_example =
    resolve_mapper_policy_oracle-Serves (header 2 2 4 0) 65536 uxrom_4-oracle

uxrom_4-Serves : Serves 65536 uxrom_4
uxrom_4-Serves = uxrom_banks_of and_conflict four refl

third-IsBank : IsBank uxrom_4 2
unfolding bank_count
third-IsBank b = omega arith

cpu_to_prg_offset-lt_example :
    (o : ℕ) × (Policy.cpu_to_prg_offset uxrom_4 0xbfff 2 ≡ ok (some o)) × (o < 65536)
cpu_to_prg_offset-lt_example =
    cpu_to_prg_offset-lt 0xbfff 2 uxrom_4-Serves (omega arith) (omega arith) third-IsBank

cpu_to_prg_offset-fixed_example :
    (o : ℕ) × (Policy.cpu_to_prg_offset uxrom_4 0xfffc 2 ≡ ok (some o))
    × (Vectors.cpu_to_prg_offset 65536 0xfffc ≡ some o)
cpu_to_prg_offset-fixed_example =
    cpu_to_prg_offset-fixed 0xfffc 2 uxrom_4-Serves (omega arith) (omega arith) third-IsBank

selected_bank_from_write-Selects_example :
    Selects 0x07 0x0e uxrom_4 (selected_bank_from_write uxrom_4 0x07 0x0e)
    × (((n : ℕ) × (uxrom_4 ≡ mmc1 n))
        ⊎ Lands 65536 uxrom_4 0x8000 (selected_bank_from_write uxrom_4 0x07 0x0e))
selected_bank_from_write-Selects_example =
    selected_bank_from_write-Selects 0x07 0x0e 0x8000 uxrom_4-Serves (omega arith) (omega arith)

prg_64k-Serves : Serves (length (zeros 65536)) uxrom_4
prg_64k-Serves = uxrom_banks_of and_conflict four (length-zeros 65536)

analysis_view-cpu_to_prg_offset_example :
    (view : List ℕ) × (o : ℕ) × (analysis_view uxrom_4 (zeros 65536) 2 ≡ ok view)
    × (Policy.cpu_to_prg_offset uxrom_4 0xc000 2 ≡ ok (some o))
    × (get_elem? view (nrom_offset (length view) 0xc000) ≡ get_elem? (zeros 65536) o)
analysis_view-cpu_to_prg_offset_example =
    analysis_view-cpu_to_prg_offset (zeros 65536) 0xc000 2 prg_64k-Serves (omega arith)
      (omega arith) third-IsBank

abbrev axrom_8 : Axrom
axrom_8 = record { bank_count = 8; bank = 0; nametable = 0 }

axrom_8-new : Axrom.new (header 7 0 16 0) 262144 ≡ ok axrom_8
unfolding Axrom.new is_power_of_two
axrom_8-new = refl

new-writes-cpu_to_prg_offset_example :
    (o : ℕ) × (Axrom.cpu_to_prg_offset
        (Axrom.Banking.writes ((0x8000, 0x15) ∷ (0x9abc, 0x0b) ∷ []) axrom_8)
        0xffff
      ≡ some o)
    × (o < 262144)
new-writes-cpu_to_prg_offset_example =
    new-writes-cpu_to_prg_offset (header 7 0 16 0) 262144 ((0x8000, 0x15) ∷ (0x9abc, 0x0b) ∷ [])
      0xffff axrom_8-new (omega arith) (omega arith)

abbrev mmc1_8 : Mmc1
mmc1_8 = Mmc1.at_power_on 8 false 32

mmc1_8-new : Mmc1.new (header 1 0 8 16) 131072 ≡ ok mmc1_8
unfolding Mmc1.new Mmc1.with_prg Mmc1.chr_banks_4k is_power_of_two windowed_bank_count
mmc1_8-new = refl

-- A reset, and a load of bank 5 into the PRG register.
abbrev loads : List (ℕ × ℕ)
loads = (0x8000, 0x80) ∷ (0xe000, 1) ∷ (0xe000, 0) ∷ (0xe000, 1) ∷ (0xe000, 0) ∷ (0xe000, 0) ∷ []

loads-InWindow : InWindow loads
loads-InWindow = ground arith

new-serial-cpu_to_prg_offset_example :
    (n : Mmc1) × (writes loads mmc1_8 ≡ some n)
    × ((o : ℕ) × (Mmc1.cpu_to_prg_offset n 0x9000 ≡ some o) × (o < 131072))
new-serial-cpu_to_prg_offset_example =
    new-serial-cpu_to_prg_offset (header 1 0 8 16) 131072 loads 0x9000 mmc1_8-new loads-InWindow
      (omega arith) (omega arith)

reset-five_writes_example :
    writes loads mmc1_8
    ≡ some (record mmc1_8 {
      shift = 0;
      shift_count = 0;
      control = bit_or mmc1_8.control 0x0c;
      prg = 5;
    })
reset-five_writes_example =
    reset-five_writes 0x8000 0xe000 0xe000 0xe000 0xe000 0xe000 0x80 1 0 1 0 0 mmc1_8 loads-InWindow
      refl refl refl refl refl refl

abbrev mmc3_32 : Mmc3
mmc3_32 = Mmc3.at_power_on 262144 131072 horizontal false

mmc3_32-new : Mmc3.new (header 4 0 16 16) 262144 131072 ≡ ok mmc3_32
unfolding Mmc3.new Mmc3.prg_ram is_power_of_two
mmc3_32-new = refl

abbrev events : List Event
events = write 0x8000 6 ∷ write 0x8001 9 ∷ m2_edge ∷ observe 0x1fff ∷ write 0xe001 0 ∷ []

new-after-cpu_to_prg_offset_example :
    (n : Mmc3) × (after events mmc3_32 ≡ some n)
    × ((o : ℕ) × (Mmc3.cpu_to_prg_offset n 0x8000 ≡ some o) × (o < 262144))
new-after-cpu_to_prg_offset_example =
    new-after-cpu_to_prg_offset (header 4 0 16 16) 262144 131072 events 0x8000 mmc3_32-new
      (omega arith) (omega arith) (omega arith)

-- A latch of 3, a requested reload and an enabled IRQ.
abbrev armed : Mmc3
armed = record mmc3_32 { irq_latch = 3; irq_reload = true; irq_enabled = true }

clocks-irq_pending_example :
    ((n : ℕ) → n ≤ armed.irq_latch → (clocks n armed).irq_pending ≡ false)
    × ((clocks (suc armed.irq_latch) armed).irq_pending ≡ true)
unfolding Mmc3.at_power_on
clocks-irq_pending_example = clocks-irq_pending armed refl refl refl

m2_edges-observe_ppu_address_example :
    Mmc3.observe_ppu_address 0x1000 (m2_edges 4 armed)
    ≡ record (if leb 3 4 then Mmc3.clock_irq_counter armed else armed) {
      a12_low_m2_edges = 0;
      a12_high = true;
    }
unfolding Mmc3.at_power_on
m2_edges-observe_ppu_address_example = m2_edges-observe_ppu_address armed 4 0x1000 refl refl refl

write_register-decoded_example :
    ((0xbfff < 0x8000) × (Mmc3.write_register 0xbfff 0x80 armed ≡ some (false, armed)))
    ⊎ ((0x8000 ≤ 0xbfff)
        × ((n : Mmc3) × (Mmc3.write_register 0xbfff 0x80 armed ≡ some (true, n))
            × (Mmc3.write_decoded (8192 * (0xbfff / 8192) + 0xbfff % 2) 0x80 armed ≡ some n)))
write_register-decoded_example = write_register-decoded 0xbfff 0x80 armed (omega arith)

ppu_to_chr_offset-lt_example :
    (o : ℕ) × (Mmc3.ppu_to_chr_offset mmc3_32 0x1fff ≡ some o) × (o < 131072)
ppu_to_chr_offset-lt_example =
    ppu_to_chr_offset-lt mmc3_32 131072 0x1fff
      (new-HasChr (header 4 0 16 16) 262144 131072 mmc3_32-new) (omega arith)
