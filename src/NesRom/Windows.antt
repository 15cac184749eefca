-- ===== src/NesRom/Windows.antt =====
-- crates/nes_rom/src/lib.rs: what the mapper policies promise.
use nes_to_sms.Base.{
  ℕ, ◌-◌, ◌*◌, ◌/◌, ◌%◌, ◌<◌, ◌≤◌, max, bit_and, u8, true, some, ok, ◌>>=◌, ◌≡◌, refl, ◌⊎◌, inl,
  inr, arith, >>=-eq-ok, bit_and_mask,
}
use nes_to_sms.NesRom.Header.{prg_bank_size, chr_bank_size, Header, chr_len}
use nes_to_sms.NesRom.Policy.{
  UxromBusConflicts, and_conflict, MapperPolicy, nrom, uxrom, mmc1, cnrom, is_bank_count,
  nrom_policy, uxrom_submapper, cnrom_submapper, uxrom_banks, uxrom_policy, mmc1_policy,
  resolve_mapper_policy, cnrom_policy, old_uxrom_policy, resolve_mapper_policy_oracle, is_banked,
  bank_count, in_range, nrom_offset, banked_offset, mapped_offset, cpu_to_prg_offset,
}

-- The bank counts that a policy of the resolvers can have, with the PRG length that goes with them.
pub data IsBanks : ℕ → Type 0 where
  two : IsBanks 2
  four : IsBanks 4
  eight : IsBanks 8
  sixteen : IsBanks 16

pub data Serves (prg_len : ℕ) : MapperPolicy → Type 0 where
  nrom_one : prg_len ≡ prg_bank_size → Serves prg_len (nrom prg_len)
  nrom_two : prg_len ≡ 2 * prg_bank_size → Serves prg_len (nrom prg_len)
  uxrom_banks_of :
      {n : ℕ} (c : UxromBusConflicts)
      → IsBanks n
      → prg_len ≡ n * prg_bank_size
      → Serves prg_len (uxrom n c)
  mmc1_banks_of : {n : ℕ} → IsBanks n → prg_len ≡ n * prg_bank_size → Serves prg_len (mmc1 n)
  cnrom_one :
      (n : ℕ) (c : UxromBusConflicts) → prg_len ≡ prg_bank_size → Serves prg_len (cnrom prg_len n c)
  cnrom_two :
      (n : ℕ) (c : UxromBusConflicts)
      → prg_len ≡ 2 * prg_bank_size
      → Serves prg_len (cnrom prg_len n c)

is_bank_count-IsBanks : (n : ℕ) → is_bank_count n ≡ true → IsBanks (u8 n) × (u8 n ≡ n)
unfolding is_bank_count
is_bank_count-IsBanks n h = elim cases [
  | inl e ↦ rw e (two, refl)
  | inr (inl e) ↦ rw e (four, refl)
  | inr (inr (inl e)) ↦ rw e (eight, refl)
  | inr (inr (inr e)) ↦ rw e (sixteen, refl)
]
  where
    cases : (n ≡ 2) ⊎ ((n ≡ 4) ⊎ ((n ≡ 8) ⊎ (n ≡ 16)))
    cases = ground arith

nrom_policy-Serves : (len : ℕ) {p : MapperPolicy} → nrom_policy len ≡ ok p → Serves len p
unfolding nrom_policy
nrom_policy-Serves len {p} e = elim cases [
  | inl (h, same) ↦ rw same (nrom_one h)
  | inr (h, same) ↦ rw same (nrom_two h)
]
  where
    cases : ((len ≡ prg_bank_size) × (p ≡ nrom len)) ⊎ ((len ≡ 2 * prg_bank_size) × (p ≡ nrom len))
    cases = ground arith

uxrom_banks-Serves :
    (len : ℕ) (c : UxromBusConflicts) {p : MapperPolicy}
    → len % prg_bank_size ≡ 0
    → uxrom_banks len c ≡ ok p
    → Serves len p
unfolding uxrom_banks
uxrom_banks-Serves len c {p} whole e =
    let test : is_bank_count (len / prg_bank_size) ≡ true = ground arith in
    let same : p ≡ uxrom (u8 (len / prg_bank_size)) c = ground arith in
    let (banks, exact) = is_bank_count-IsBanks (len / prg_bank_size) test in
    rw same (uxrom_banks_of c banks (omega arith))

mmc1_policy-Serves : (len : ℕ) {p : MapperPolicy} → mmc1_policy len ≡ ok p → Serves len p
unfolding mmc1_policy
mmc1_policy-Serves len {p} e =
    let whole : len % prg_bank_size ≡ 0 = ground arith in
    let test : is_bank_count (len / prg_bank_size) ≡ true = ground arith in
    let same : p ≡ mmc1 (u8 (len / prg_bank_size)) = ground arith in
    let (banks, exact) = is_bank_count-IsBanks (len / prg_bank_size) test in
    rw same (mmc1_banks_of banks (omega arith))

uxrom_policy-Serves :
    (h : Header) (len : ℕ) {p : MapperPolicy} → uxrom_policy h len ≡ ok p → Serves len p
unfolding uxrom_policy
uxrom_policy-Serves h len {p} e =
    let whole : len % prg_bank_size ≡ 0 = ground arith in
    let chosen : (uxrom_submapper h.submapper >>= uxrom_banks len) ≡ ok p = ground arith in
    let (c, submapper, rest) = >>=-eq-ok (uxrom_submapper h.submapper) (uxrom_banks len) chosen in
    uxrom_banks-Serves len c whole rest

old_uxrom_policy-Serves : (len : ℕ) {p : MapperPolicy} → old_uxrom_policy len ≡ ok p → Serves len p
unfolding old_uxrom_policy
old_uxrom_policy-Serves len {p} e =
    uxrom_banks-Serves len and_conflict (ground arith) (ground arith)

cnrom_policy-Serves :
    (h : Header) (len : ℕ) {p : MapperPolicy} → cnrom_policy h len ≡ ok p → Serves len p
unfolding cnrom_policy
cnrom_policy-Serves h len {p} e =
    let chosen : (cnrom_submapper h.submapper >>= λ c.
    ok (cnrom len (u8 (max (chr_len h / chr_bank_size) 1)) c))
        ≡ ok p =
      ground arith in
    let (c, submapper, rest) = >>=-eq-ok (cnrom_submapper h.submapper) _ chosen in
    let same : p ≡ cnrom len (u8 (max (chr_len h / chr_bank_size) 1)) c = ground arith in
    let sizes : (len ≡ prg_bank_size) ⊎ (len ≡ 2 * prg_bank_size) = ground arith in
    elim sizes [ inl one ↦ rw same (cnrom_one _ c one) | inr both ↦ rw same (cnrom_two _ c both) ]

resolve_mapper_policy-Serves :
    (h : Header) (len : ℕ) {p : MapperPolicy} → resolve_mapper_policy h len ≡ ok p → Serves len p
unfolding resolve_mapper_policy
resolve_mapper_policy-Serves h len {p} e = elim cases [
  | inl n ↦ nrom_policy-Serves len n
  | inr (inl u) ↦ uxrom_policy-Serves h len u
  | inr (inr m) ↦ mmc1_policy-Serves len m
]
  where
    cases : (nrom_policy len ≡ ok p) ⊎ ((uxrom_policy h len ≡ ok p) ⊎ (mmc1_policy len ≡ ok p))
    cases = ground arith

-- A policy that a resolver answers is one of the boards with the PRG length that it was asked for:
-- 1 or 2 banks of 16 KiB for NROM and CNROM, and for UxROM and MMC1 2, 4, 8 or 16 banks, which are
-- exactly the bank count of the policy.
pub resolve_mapper_policy_oracle-Serves :
    (h : Header) (len : ℕ) {p : MapperPolicy}
    → resolve_mapper_policy_oracle h len ≡ ok p
    → Serves len p
unfolding resolve_mapper_policy_oracle
resolve_mapper_policy_oracle-Serves h len {p} e = elim cases [
  | inl n ↦ cnrom_policy-Serves h len n
  | inr (inl u) ↦ old_uxrom_policy-Serves len u
  | inr (inr m) ↦ resolve_mapper_policy-Serves h len m
]
  where
    cases :
        (cnrom_policy h len ≡ ok p)
        ⊎ ((old_uxrom_policy len ≡ ok p) ⊎ (resolve_mapper_policy h len ≡ ok p))
    cases = ground arith

-- The strict resolver answers nothing that the oracle's does not.
pub resolve_mapper_policy-oracle :
    (h : Header) (len : ℕ) {p : MapperPolicy}
    → resolve_mapper_policy h len ≡ ok p
    → resolve_mapper_policy_oracle h len ≡ ok p
unfolding resolve_mapper_policy resolve_mapper_policy_oracle uxrom_policy
resolve_mapper_policy-oracle h len {p} e = ground arith

-- The bank that a write can select: any for the boards that have one window.
abbrev pub IsBank : MapperPolicy → ℕ → Type 0
IsBank p bank = is_banked p ≡ true → bank < bank_count p

pub IsBanks-lt : {n : ℕ} → IsBanks n → (1 < n) × (n ≤ 16)
IsBanks-lt two = (omega arith, omega arith)
IsBanks-lt four = (omega arith, omega arith)
IsBanks-lt eight = (omega arith, omega arith)
IsBanks-lt sixteen = (omega arith, omega arith)

pub offset_mask : (a : ℕ) → bit_and a (prg_bank_size - 1) ≡ a % prg_bank_size
offset_mask a = bit_and_mask 14 a

pub in_range-ok : (n bank : ℕ) → bank < n → in_range n bank ≡ ok (bank * prg_bank_size)
unfolding in_range
in_range-ok n bank h = ground arith

nrom_offset-lt :
    (len addr : ℕ)
    → (len ≡ prg_bank_size) ⊎ (len ≡ 2 * prg_bank_size)
    → addr < 65536
    → nrom_offset len addr < len
unfolding nrom_offset
nrom_offset-lt len addr (inl h) b = ground (arith, offset_mask (addr - 0x8000))
nrom_offset-lt len addr (inr h) b = ground arith

banked_offset-lt :
    {n : ℕ} (bank addr : ℕ)
    → IsBanks n
    → bank < n
    → addr < 65536
    → banked_offset n addr (bank * prg_bank_size) < n * prg_bank_size
unfolding banked_offset
banked_offset-lt bank addr banks h b = ground (arith, IsBanks-lt banks)

mapped_offset-lt :
    {len : ℕ} {p : MapperPolicy} (addr bank : ℕ)
    → Serves len p
    → addr < 65536
    → IsBank p bank
    → (o : ℕ) × (mapped_offset p addr bank ≡ ok o) × (o < len)
unfolding mapped_offset is_banked bank_count
mapped_offset-lt addr bank (nrom_one e) a b = (_, refl, nrom_offset-lt _ addr (inl e) a)
mapped_offset-lt addr bank (nrom_two e) a b = (_, refl, nrom_offset-lt _ addr (inr e) a)
mapped_offset-lt addr bank (cnrom_one n c e) a b = (_, refl, nrom_offset-lt _ addr (inl e) a)
mapped_offset-lt addr bank (cnrom_two n c e) a b = (_, refl, nrom_offset-lt _ addr (inr e) a)
mapped_offset-lt addr bank (uxrom_banks_of {n} c banks e) a b =
    rw (in_range-ok n bank (b refl)) (_, refl, rw e (banked_offset-lt bank addr banks (b refl) a))
mapped_offset-lt addr bank (mmc1_banks_of {n} banks e) a b =
    rw (in_range-ok n bank (b refl)) (_, refl, rw e (banked_offset-lt bank addr banks (b refl) a))

-- Under a policy that serves a PRG of some length, every CPU address from $8000 to $FFFF has, for
-- every bank that exists, an offset, and it lies in the PRG.
pub cpu_to_prg_offset-lt :
    {len : ℕ} {p : MapperPolicy} (addr bank : ℕ)
    → Serves len p
    → 0x8000 ≤ addr
    → addr < 65536
    → IsBank p bank
    → (o : ℕ) × (cpu_to_prg_offset p addr bank ≡ ok (some o)) × (o < len)
unfolding cpu_to_prg_offset
cpu_to_prg_offset-lt addr bank s low high b =
    let (o, found, bound) = mapped_offset-lt addr bank s high b in (o, ground (arith, found), bound)
