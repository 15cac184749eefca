-- ===== src/NesRom/Mmc3.antt =====
-- crates/nes_rom/src/mmc3.rs: MMC3.
pub mod Banking
pub mod Irq
pub mod Registers
pub mod Chr
use nes_to_sms.Base.{
  ℕ, suc, ◌+◌, ◌-◌, ◌*◌, ◌/◌, ◌%◌, ◌==◌, ltb, leb, min, bit_and, bit_or, has_bits, u8, u16, Bool,
  true, false, not, ◌&&◌, ◌||◌, List, [], ◌∷◌, ◌++◌, set, get_or, take, drop, Option, none, some,
  Result, ok, err, ◌>>=◌, ◌>>◌, refuse_if, is_power_of_two, if◌then◌else◌,
}
use mathlib.Core.List.{map}
use nes_to_sms.NesRom.Header.{
  Header, is_nes2, is_four_screen, prg_len, chr_len, Mirroring, vertical, horizontal,
}

abbrev pub prg_window_size : ℕ
prg_window_size = 8 * 1024

abbrev pub chr_window_size : ℕ
chr_window_size = 1024

pub data Mmc3Error : Type 0 where
  unsupported_mapper : ℕ → Mmc3Error
  requires_nes2 : Mmc3Error
  unsupported_submapper : ℕ → Mmc3Error
  unsupported_trainer unsupported_four_screen : Mmc3Error
  invalid_prg_layout invalid_chr_layout : ℕ → Mmc3Error
  header_payload_mismatch unsupported_chr_ram unsupported_prg_ram : Mmc3Error

-- `revision` is always `Sharp` and is left out.
pub record Mmc3 : Type 0 where
  pub prg_bank_count : ℕ
  pub chr_bank_count : ℕ
  pub has_prg_ram : Bool
  pub bank_select : ℕ
  pub banks : List ℕ
  pub mirroring : Mirroring
  pub ram_protect : ℕ
  pub irq_latch : ℕ
  pub irq_counter : ℕ
  pub irq_reload : Bool
  pub irq_enabled : Bool
  pub irq_pending : Bool
  pub a12_high : Bool
  pub a12_low_m2_edges : ℕ

-- The `match` on the PRG RAM sizes and the battery.
unfoldable pub prg_ram : Header → Result Mmc3Error Bool
prg_ram h =
    if h.prg_ram_size == 0 && (h.prg_nvram_size == 0 && not h.has_battery)
    then ok false
    else (if (h.prg_ram_size == 8192 && (h.prg_nvram_size == 0 && not h.has_battery))
          || (h.prg_ram_size == 0 && (h.prg_nvram_size == 8192 && h.has_battery))
        then ok true
        else err unsupported_prg_ram)

unfoldable pub at_power_on : ℕ → ℕ → Mirroring → Bool → Mmc3
at_power_on prg chr mirroring ram = record {
  prg_bank_count = u8 (prg / prg_window_size);
  chr_bank_count = u16 (chr / chr_window_size);
  has_prg_ram = ram;
  bank_select = 0;
  banks = 0 ∷ 0 ∷ 0 ∷ 0 ∷ 0 ∷ 0 ∷ 0 ∷ 0 ∷ [];
  mirroring = mirroring;
  ram_protect = 0;
  irq_latch = 0;
  irq_counter = 0;
  irq_reload = false;
  irq_enabled = false;
  irq_pending = false;
  a12_high = false;
  a12_low_m2_edges = 0;
}

abbrev pub within : ℕ → ℕ → ℕ → Bool
within low high len = leb low len && leb len high

unfoldable pub new : Header → ℕ → ℕ → Result Mmc3Error Mmc3
new h prg chr =
    refuse_if (not (h.mapper == 4)) (unsupported_mapper h.mapper)
    >> (refuse_if (not (is_nes2 h.kind)) requires_nes2
        >> (refuse_if (not (h.submapper == 0)) (unsupported_submapper h.submapper)
            >> (refuse_if h.has_trainer unsupported_trainer
                >> (refuse_if (is_four_screen h.mirroring) unsupported_four_screen
                    >> (refuse_if
                          (not (within (32 * 1024) (512 * 1024) prg) || not (is_power_of_two prg))
                          (invalid_prg_layout prg)
                        >> (refuse_if
                              (not (within (8 * 1024) (256 * 1024) chr)
                                || not (is_power_of_two chr))
                              (invalid_chr_layout chr)
                            >> (refuse_if (not (prg_len h == prg) || not (chr_len h == chr))
                                  header_payload_mismatch
                                >> (refuse_if
                                      (not (h.chr_ram_size == 0) || not (h.chr_nvram_size == 0))
                                      unsupported_chr_ram
                                    >> (prg_ram h >>= λ ram.
                                        ok (at_power_on prg chr h.mirroring ram))))))))))

abbrev pub register : Mmc3 → ℕ → ℕ
register m i = get_or m.banks i 0

-- The 8 KiB banks at the four windows.
unfoldable pub prg_banks : Mmc3 → List ℕ
prg_banks m =
    let mask = m.prg_bank_count - 1 in
    let r6 = bit_and (bit_and (register m 6) 0x3f) mask in
    let r7 = bit_and (bit_and (register m 7) 0x3f) mask in
    let last = m.prg_bank_count - 1 in
    if not (has_bits m.bank_select 0x40)
    then r6 ∷ r7 ∷ (last - 1) ∷ last ∷ []
    else (last - 1) ∷ r7 ∷ r6 ∷ last ∷ []

unfoldable pub chr_windows : Mmc3 → List ℕ
chr_windows m =
    let r0 = bit_and (register m 0) 0xfe in
    let r1 = bit_and (register m 1) 0xfe in
    r0
    ∷ bit_or r0 1
    ∷ r1
    ∷ bit_or r1 1
    ∷ register m 2
    ∷ register m 3
    ∷ register m 4
    ∷ register m 5
    ∷ []

abbrev pub rotate_left : ℕ → List ℕ → List ℕ
rotate_left n xs = drop n xs ++ take n xs

unfoldable pub chr_banks : Mmc3 → List ℕ
unfolding chr_windows
chr_banks m =
    let mask = u8 (m.chr_bank_count - 1) in
    map (λ bank. bit_and bank mask)
      (if has_bits m.bank_select 0x80 then rotate_left 4 (chr_windows m) else chr_windows m)

unfoldable pub cpu_to_prg_offset : Mmc3 → ℕ → Option ℕ
cpu_to_prg_offset m addr =
    let relative = addr - 0x8000 in
    if ltb addr 0x8000
    then none
    else some (
        get_or (prg_banks m) (relative / prg_window_size) 0 * prg_window_size
        + relative % prg_window_size)

unfoldable pub ppu_to_chr_offset : Mmc3 → ℕ → Option ℕ
ppu_to_chr_offset m addr =
    if leb 0x2000 addr
    then none
    else some
        (get_or (chr_banks m) (addr / chr_window_size) 0 * chr_window_size + addr % chr_window_size)

unfoldable pub prg_ram_read_offset : Mmc3 → ℕ → Option ℕ
prg_ram_read_offset m addr =
    if m.has_prg_ram && (has_bits m.ram_protect 0x80 && (leb 0x6000 addr && ltb addr 0x8000))
    then some (addr - 0x6000)
    else none

unfoldable pub prg_ram_write_offset : Mmc3 → ℕ → Option ℕ
prg_ram_write_offset m addr =
    if has_bits m.ram_protect 0x40 then none else prg_ram_read_offset m addr

-- The register that `addr & 0xe001` names; `none` is the `unreachable!` arm.
unfoldable pub write_decoded : ℕ → ℕ → Mmc3 → Option Mmc3
write_decoded port value m =
    if port == 0x8000
    then some (record m { bank_select = value })
    else (if port == 0x8001
        then some (record m { banks = set m.banks (bit_and m.bank_select 7) value })
        else (if port == 0xa000
            then some
                (record m { mirroring = if bit_and value 1 == 0 then vertical else horizontal })
            else (if port == 0xa001
                then some (record m { ram_protect = value })
                else (if port == 0xc000
                    then some (record m { irq_latch = value })
                    else (if port == 0xc001
                        then some (record m { irq_counter = 0; irq_reload = true })
                        else (if port == 0xe000
                            then some (record m { irq_enabled = false; irq_pending = false })
                            else (if port == 0xe001
                                then some (record m { irq_enabled = true })
                                else none)))))))

-- The answer `false` and an unchanged board below $8000; `none` is a panic.
unfoldable pub write_register : ℕ → ℕ → Mmc3 → Option (Bool × Mmc3)
write_register addr value m =
    if ltb addr 0x8000
    then some (false, m)
    else (elim (write_decoded (bit_and addr 0xe001) value m) [
      | none ↦ none
      | some n ↦ some (true, n)
    ])

unfoldable pub clock_irq_counter : Mmc3 → Mmc3
clock_irq_counter m =
    let counter = if m.irq_counter == 0 || m.irq_reload then m.irq_latch else m.irq_counter - 1 in
    record m {
      irq_counter = counter;
      irq_reload = false;
      irq_pending = if counter == 0 && m.irq_enabled then true else m.irq_pending;
    }

unfoldable pub observe_ppu_address : ℕ → Mmc3 → Mmc3
observe_ppu_address addr m =
    let high = has_bits addr 0x1000 in
    let clocked =
      if high && (not m.a12_high && leb 3 m.a12_low_m2_edges) then clock_irq_counter m else m in
    record clocked {
      a12_low_m2_edges = if high || clocked.a12_high then 0 else clocked.a12_low_m2_edges;
      a12_high = high;
    }

unfoldable pub clock_m2_falling_edge : Mmc3 → Mmc3
clock_m2_falling_edge m =
    if not m.a12_high
    then record m { a12_low_m2_edges = min (min (m.a12_low_m2_edges + 1) 255) 3 }
    else m
