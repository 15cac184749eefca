-- ===== src/NesRom/Policy.antt =====
-- crates/nes_rom/src/lib.rs: `MapperPolicy`, how it is resolved, and the address maps.
use nes_to_sms.Base.{
  ℕ, ◌+◌, ◌-◌, ◌*◌, ◌/◌, ◌%◌, ◌==◌, ltb, max, bit_and, u8, Bool, true, false, not, ◌&&◌, ◌||◌, List,
  ◌++◌, take, drop, Option, none, some, Result, ok, err, ◌>>=◌, if◌then◌else◌,
}
use nes_to_sms.NesRom.Header.{prg_bank_size, chr_bank_size, Header, is_nes2, chr_len, slice}

pub data UxromBusConflicts : Type 0 where
  no_conflict and_conflict : UxromBusConflicts

pub data MapperPolicy : Type 0 where
  nrom : (prg_len : ℕ) → MapperPolicy
  uxrom : (bank_count : ℕ) (bus_conflicts : UxromBusConflicts) → MapperPolicy
  mmc1 : (bank_count : ℕ) → MapperPolicy
  cnrom : (prg_len chr_bank_count : ℕ) (bus_conflicts : UxromBusConflicts) → MapperPolicy

pub data MapperPolicyError : Type 0 where
  unsupported_mapper : ℕ → MapperPolicyError
  uxrom_requires_nes2 : MapperPolicyError
  unsupported_uxrom_submapper invalid_nrom_prg_layout invalid_uxrom_prg_layout
        invalid_mmc1_prg_layout :
      ℕ → MapperPolicyError
  selected_bank_out_of_range : (bank bank_count : ℕ) → MapperPolicyError

-- `matches!(bank_count, 2 | 4 | 8 | 16)`.
unfoldable pub is_bank_count : ℕ → Bool
is_bank_count n = n == 2 || (n == 4 || (n == 8 || n == 16))

unfoldable pub nrom_policy : ℕ → Result MapperPolicyError MapperPolicy
nrom_policy prg_len =
    if prg_len == prg_bank_size || prg_len == 2 * prg_bank_size
    then ok (nrom prg_len)
    else err (invalid_nrom_prg_layout prg_len)

-- Submapper 1 has no bus conflicts, 2 has AND conflicts.
unfoldable pub uxrom_submapper : ℕ → Result MapperPolicyError UxromBusConflicts
uxrom_submapper submapper =
    if submapper == 1
    then ok no_conflict
    else (if submapper == 2 then ok and_conflict else err (unsupported_uxrom_submapper submapper))

unfoldable pub cnrom_submapper : ℕ → Result MapperPolicyError UxromBusConflicts
cnrom_submapper submapper =
    if submapper == 0 || submapper == 1
    then ok no_conflict
    else (if submapper == 2 then ok and_conflict else err (unsupported_uxrom_submapper submapper))

unfoldable pub uxrom_banks : ℕ → UxromBusConflicts → Result MapperPolicyError MapperPolicy
uxrom_banks prg_len conflicts =
    if is_bank_count (prg_len / prg_bank_size)
    then ok (uxrom (u8 (prg_len / prg_bank_size)) conflicts)
    else err (invalid_uxrom_prg_layout prg_len)

unfoldable pub uxrom_policy : Header → ℕ → Result MapperPolicyError MapperPolicy
uxrom_policy h prg_len =
    if not (is_nes2 h.kind)
    then err uxrom_requires_nes2
    else (if prg_len % prg_bank_size == 0
        then uxrom_submapper h.submapper >>= uxrom_banks prg_len
        else err (invalid_uxrom_prg_layout prg_len))

unfoldable pub mmc1_policy : ℕ → Result MapperPolicyError MapperPolicy
mmc1_policy prg_len =
    if prg_len % prg_bank_size == 0 && is_bank_count (prg_len / prg_bank_size)
    then ok (mmc1 (u8 (prg_len / prg_bank_size)))
    else err (invalid_mmc1_prg_layout prg_len)

unfoldable pub resolve_mapper_policy : Header → ℕ → Result MapperPolicyError MapperPolicy
resolve_mapper_policy h prg_len =
    if h.mapper == 0
    then nrom_policy prg_len
    else (if h.mapper == 2
        then uxrom_policy h prg_len
        else (if h.mapper == 1 then mmc1_policy prg_len else err (unsupported_mapper h.mapper)))

unfoldable pub cnrom_policy : Header → ℕ → Result MapperPolicyError MapperPolicy
cnrom_policy h prg_len =
    if not (is_nes2 h.kind)
    then err uxrom_requires_nes2
    else (if not (prg_len == prg_bank_size) && not (prg_len == 2 * prg_bank_size)
        then err (invalid_nrom_prg_layout prg_len)
        else (cnrom_submapper h.submapper >>= λ conflicts.
            ok (cnrom prg_len (u8 (max (chr_len h / chr_bank_size) 1)) conflicts)))

-- An iNES UxROM has no submapper and is taken to have AND conflicts.
unfoldable pub old_uxrom_policy : ℕ → Result MapperPolicyError MapperPolicy
old_uxrom_policy prg_len =
    if prg_len % prg_bank_size == 0
    then uxrom_banks prg_len and_conflict
    else err (invalid_uxrom_prg_layout prg_len)

unfoldable pub resolve_mapper_policy_oracle : Header → ℕ → Result MapperPolicyError MapperPolicy
resolve_mapper_policy_oracle h prg_len =
    if h.mapper == 3
    then cnrom_policy h prg_len
    else (if h.mapper == 2 && not (is_nes2 h.kind)
        then old_uxrom_policy prg_len
        else resolve_mapper_policy h prg_len)

unfoldable pub is_banked : MapperPolicy → Bool
is_banked (uxrom n c) = true
is_banked (mmc1 n) = true
is_banked (nrom len) = false
is_banked (cnrom len n c) = false

unfoldable pub bank_count : MapperPolicy → ℕ
bank_count (nrom len) = u8 (len / prg_bank_size)
bank_count (cnrom len n c) = u8 (len / prg_bank_size)
bank_count (uxrom n c) = n
bank_count (mmc1 n) = n

unfoldable pub in_range : ℕ → ℕ → Result MapperPolicyError ℕ
in_range n bank =
    if ltb bank n then ok (bank * prg_bank_size) else err (selected_bank_out_of_range bank n)

unfoldable pub checked_bank_offset : MapperPolicy → ℕ → Result MapperPolicyError ℕ
checked_bank_offset (nrom len) bank = ok 0
checked_bank_offset (cnrom len n c) bank = ok 0
checked_bank_offset (uxrom n c) bank = in_range n bank
checked_bank_offset (mmc1 n) bank = in_range n bank

unfoldable pub nrom_offset : ℕ → ℕ → ℕ
nrom_offset len addr =
    if len == prg_bank_size then bit_and (addr - 0x8000) (prg_bank_size - 1) else addr - 0x8000

unfoldable pub banked_offset : ℕ → ℕ → ℕ → ℕ
banked_offset n addr offset =
    if ltb addr 0xc000 then offset + (addr - 0x8000) else (n - 1) * prg_bank_size + (addr - 0xc000)

-- The part of `cpu_to_prg_offset` after its early return.
unfoldable pub mapped_offset : MapperPolicy → ℕ → ℕ → Result MapperPolicyError ℕ
mapped_offset (nrom len) addr bank = ok (nrom_offset len addr)
mapped_offset (cnrom len n c) addr bank = ok (nrom_offset len addr)
mapped_offset (uxrom n c) addr bank = in_range n bank >>= λ o. ok (banked_offset n addr o)
mapped_offset (mmc1 n) addr bank = in_range n bank >>= λ o. ok (banked_offset n addr o)

unfoldable pub cpu_to_prg_offset : MapperPolicy → ℕ → ℕ → Result MapperPolicyError (Option ℕ)
cpu_to_prg_offset policy addr bank =
    if ltb addr 0x8000 then ok none else mapped_offset policy addr bank >>= λ o. ok (some o)

unfoldable pub prg_bank : MapperPolicy → List ℕ → ℕ → Result MapperPolicyError (List ℕ)
prg_bank policy prg bank =
    checked_bank_offset policy bank >>= λ offset. ok (slice prg offset prg_bank_size)

unfoldable pub upper_prg : ℕ → List ℕ → List ℕ
upper_prg len prg = if len == prg_bank_size then prg else drop prg_bank_size prg

unfoldable pub fixed_prg : MapperPolicy → List ℕ → List ℕ
fixed_prg (nrom len) prg = upper_prg len prg
fixed_prg (cnrom len n c) prg = upper_prg len prg
fixed_prg (uxrom n c) prg = slice prg ((n - 1) * prg_bank_size) prg_bank_size
fixed_prg (mmc1 n) prg = slice prg ((n - 1) * prg_bank_size) prg_bank_size

unfoldable pub lower_prg : List ℕ → List ℕ
lower_prg prg = take prg_bank_size prg

unfoldable pub banked_view : MapperPolicy → List ℕ → ℕ → Result MapperPolicyError (List ℕ)
banked_view policy prg bank = prg_bank policy prg bank >>= λ low. ok (low ++ fixed_prg policy prg)

unfoldable pub analysis_view : MapperPolicy → List ℕ → ℕ → Result MapperPolicyError (List ℕ)
analysis_view policy prg bank = if is_banked policy then banked_view policy prg bank else ok prg

unfoldable pub effective_write : UxromBusConflicts → ℕ → ℕ → ℕ
effective_write no_conflict raw rom = raw
effective_write and_conflict raw rom = bit_and raw rom

unfoldable pub cnrom_chr_bank_from_write : MapperPolicy → ℕ → ℕ → Option ℕ
cnrom_chr_bank_from_write (cnrom len n c) raw rom =
    some (if n == 0 then 0 else effective_write c raw rom % n)
cnrom_chr_bank_from_write (nrom len) raw rom = none
cnrom_chr_bank_from_write (uxrom n c) raw rom = none
cnrom_chr_bank_from_write (mmc1 n) raw rom = none

unfoldable pub uxrom_bus_conflicts : MapperPolicy → Option UxromBusConflicts
uxrom_bus_conflicts (uxrom n c) = some c
uxrom_bus_conflicts (nrom len) = none
uxrom_bus_conflicts (cnrom len n c) = none
uxrom_bus_conflicts (mmc1 n) = none

unfoldable pub selected_bank_from_write : MapperPolicy → ℕ → ℕ → Result MapperPolicyError ℕ
selected_bank_from_write (nrom len) raw rom = ok 0
selected_bank_from_write (cnrom len n c) raw rom = ok 0
selected_bank_from_write (uxrom n c) raw rom =
    let bank = bit_and (effective_write c raw rom) (n - 1) in in_range n bank >>= λ offset. ok bank
selected_bank_from_write (mmc1 n) raw rom = err (unsupported_mapper 1)
