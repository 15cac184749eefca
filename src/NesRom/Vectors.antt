-- ===== src/NesRom/Vectors.antt =====
-- crates/nes_rom/src/lib.rs: vectors and the address maps that take no policy.
use nes_to_sms.Base.{
  ℕ, ◌+◌, ◌-◌, ◌*◌, ◌==◌, ltb, leb, bit_and, ◌&&◌, not, List, length, get_elem?, Option, none, some,
  Result, ok, err, ◌>>=◌, if◌then◌else◌,
}
use nes_to_sms.NesRom.Policy.{MapperPolicy, MapperPolicyError}
use nes_to_sms.NesRom.Policy

pub record Vectors : Type 0 where
  pub nmi : ℕ
  pub reset : ℕ
  pub irq : ℕ

-- `u16::from_le_bytes`, where both bytes are there.
abbrev pub from_le_bytes : Option ℕ → Option ℕ → Option ℕ
from_le_bytes none hi = none
from_le_bytes (some lo) none = none
from_le_bytes (some lo) (some hi) = some (lo + hi * 256)

unfoldable pub word_at : List ℕ → Option ℕ → Option ℕ
word_at prg none = none
word_at prg (some offset) = from_le_bytes (get_elem? prg offset) (get_elem? prg (offset + 1))

-- `read_word` of `read_vectors_with_policy`.
unfoldable pub read_word : MapperPolicy → List ℕ → ℕ → Result MapperPolicyError (Option ℕ)
read_word policy prg addr =
    Policy.cpu_to_prg_offset policy addr 0 >>= λ offset. ok (word_at prg offset)

-- `match read_word(..)? { Some(value) => value, None => return Ok(None) }`.
abbrev pub or_none :
    Result MapperPolicyError (Option ℕ)
    → (ℕ → Result MapperPolicyError (Option Vectors))
    → Result MapperPolicyError (Option Vectors)
or_none (err e) next = err e
or_none (ok none) next = ok none
or_none (ok (some v)) next = next v

unfoldable pub read_vectors_with_policy :
    MapperPolicy → List ℕ → Result MapperPolicyError (Option Vectors)
unfolding read_word
read_vectors_with_policy policy prg = or_none (read_word policy prg 0xfffa) (λ n.
    or_none (read_word policy prg 0xfffc) (λ r.
      or_none (read_word policy prg 0xfffe)
        (λ i. ok (some (record { nmi = n; reset = r; irq = i })))))

unfoldable pub cpu_to_prg_offset : ℕ → ℕ → Option ℕ
cpu_to_prg_offset prg_len addr =
    if ltb addr 0x8000
    then none
    else (if prg_len == 16 * 1024
        then some (bit_and (addr - 0x8000) 0x3fff)
        else (if prg_len == 32 * 1024
            then some (addr - 0x8000)
            else (if ltb (32 * 1024) prg_len && leb 0xc000 addr
                then some (prg_len - 0x4000 + (addr - 0xc000))
                else none)))

unfoldable pub banked_prg_offset : ℕ → ℕ → ℕ → Option ℕ
banked_prg_offset prg_len bank addr =
    let off = bank * 0x4000 + (addr - 0x8000) in
    if not (leb 0x8000 addr && ltb addr 0xc000)
    then none
    else (if ltb off prg_len then some off else none)

unfoldable pub read_word_at_cpu_addr : List ℕ → ℕ → Option ℕ
read_word_at_cpu_addr prg addr = word_at prg (cpu_to_prg_offset (length prg) addr)

abbrev pub vectors_of : Option ℕ → Option ℕ → Option ℕ → Option Vectors
vectors_of (some n) (some r) (some i) = some (record { nmi = n; reset = r; irq = i })
vectors_of none r i = none
vectors_of (some n) none i = none
vectors_of (some n) (some r) none = none

unfoldable pub read_vectors : List ℕ → Option Vectors
read_vectors prg =
    vectors_of (read_word_at_cpu_addr prg 0xfffa) (read_word_at_cpu_addr prg 0xfffc)
      (read_word_at_cpu_addr prg 0xfffe)
