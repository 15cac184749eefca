-- ===== src/NesRom/View.antt =====
-- crates/nes_rom/src/lib.rs: `analysis_view` shows what the CPU sees.
use nes_to_sms.Base.{
  ℕ, suc, ◌+◌, ◌-◌, ◌*◌, ◌<◌, ◌≤◌, ltb, List, ◌++◌, get_elem?, length, drop, some, ok, ◌≡◌, refl,
  ap, sym, ◌∙◌, inl, inr, arith, Bool-cases, length-take, length-drop, length-append,
  get_elem?-take, get_elem?-drop, get_elem?-append_left, get_elem?-append_right,
}
use nes_to_sms.NesRom.Header.{prg_bank_size, slice}
use nes_to_sms.NesRom.Policy.{
  MapperPolicy, is_banked, bank_count, checked_bank_offset, nrom_offset, banked_offset,
  mapped_offset, cpu_to_prg_offset, prg_bank, fixed_prg, banked_view, analysis_view,
}
use nes_to_sms.NesRom.Windows.{
  Serves, nrom_one, nrom_two, uxrom_banks_of, mmc1_banks_of, cnrom_one, cnrom_two, IsBanks, IsBank,
  IsBanks-lt, in_range-ok,
}

-- A view shows at an address the byte at an offset of the PRG.
abbrev Shows : List ℕ → List ℕ → ℕ → ℕ → Type 0
Shows prg view addr o = get_elem? view (nrom_offset (length view) addr) ≡ get_elem? prg o

abbrev two_banks : ℕ → List ℕ → ℕ → List ℕ
two_banks n prg bank =
    slice prg (bank * prg_bank_size) prg_bank_size
    ++ slice prg ((n - 1) * prg_bank_size) prg_bank_size

get_elem?-slice :
    (prg : List ℕ) (start len i : ℕ)
    → i < len
    → get_elem? (slice prg start len) i ≡ get_elem? prg (start + i)
get_elem?-slice prg start len i h =
    get_elem?-take len i (drop start prg) h ∙ get_elem?-drop start i prg

length-bank :
    (prg : List ℕ) (bank : ℕ)
    → suc bank * prg_bank_size ≤ length prg
    → length (slice prg (bank * prg_bank_size) prg_bank_size) ≡ prg_bank_size
length-bank prg bank h = omega (
  arith,
  length-take prg_bank_size (drop (bank * prg_bank_size) prg),
  length-drop (bank * prg_bank_size) prg,
)

-- Two slices of one length, one after the other.
module _ (prg : List ℕ) (w a b : ℕ) (whole : length (slice prg a w) ≡ w) where
  first_slice :
      (i : ℕ) → i < w → get_elem? (slice prg a w ++ slice prg b w) i ≡ get_elem? prg (a + i)
  first_slice i h =
      get_elem?-append_left i (slice prg a w) (slice prg b w) (omega arith)
      ∙ get_elem?-slice prg a w i h

  second_slice :
      (i : ℕ) → i < w → get_elem? (slice prg a w ++ slice prg b w) (w + i) ≡ get_elem? prg (b + i)
  second_slice i h =
      ap (λ (l : ℕ). get_elem? (slice prg a w ++ slice prg b w) (l + i)) (sym whole)
      ∙ get_elem?-append_right i (slice prg a w) (slice prg b w)
      ∙ get_elem?-slice prg b w i h

length-two_banks :
    (prg : List ℕ) {n : ℕ} (bank : ℕ)
    → IsBanks n
    → length prg ≡ n * prg_bank_size
    → bank < n
    → length (two_banks n prg bank) ≡ 2 * prg_bank_size
length-two_banks prg {n} bank banks e b = omega (
  arith,
  length-append (slice prg (bank * prg_bank_size) prg_bank_size)
      (slice prg ((n - 1) * prg_bank_size) prg_bank_size),
  length-bank prg bank (omega arith),
  length-bank prg (n - 1) (omega (arith, IsBanks-lt banks)),
)

two_banks-nrom_offset :
    (prg : List ℕ) {n : ℕ} (bank addr : ℕ)
    → IsBanks n
    → length prg ≡ n * prg_bank_size
    → bank < n
    → nrom_offset (length (two_banks n prg bank)) addr ≡ addr - 0x8000
unfolding nrom_offset
two_banks-nrom_offset prg {n} bank addr banks e b = rw (length-two_banks prg bank banks e b) refl

two_banks-Shows :
    (prg : List ℕ) {n : ℕ} (bank addr : ℕ)
    → IsBanks n
    → length prg ≡ n * prg_bank_size
    → bank < n
    → 0x8000 ≤ addr
    → addr < 65536
    → Shows prg (two_banks n prg bank) addr (banked_offset n addr (bank * prg_bank_size))
unfolding banked_offset
two_banks-Shows prg {n} bank addr banks e b low high = elim (Bool-cases (ltb addr 0xc000)) [
  | inl l ↦
      rw (two_banks-nrom_offset prg bank addr banks e b, l)
        (first_slice prg prg_bank_size (bank * prg_bank_size) ((n - 1) * prg_bank_size)
          (length-bank prg bank (omega arith)) (addr - 0x8000) (ground arith))
  | inr h ↦
      let up : addr - 0x8000 ≡ prg_bank_size + (addr - 0xc000) = ground arith in
      rw (two_banks-nrom_offset prg bank addr banks e b, h, up)
        (second_slice prg prg_bank_size (bank * prg_bank_size) ((n - 1) * prg_bank_size)
          (length-bank prg bank (omega arith)) (addr - 0xc000) (ground arith))
]

Viewed : MapperPolicy → List ℕ → ℕ → ℕ → Type 0
Viewed p prg addr bank =
    (view : List ℕ) × (o : ℕ) × (analysis_view p prg bank ≡ ok view)
    × (mapped_offset p addr bank ≡ ok o)
    × Shows prg view addr o

analysis_view-mapped :
    {p : MapperPolicy} (prg : List ℕ) (addr bank : ℕ)
    → Serves (length prg) p
    → 0x8000 ≤ addr
    → addr < 65536
    → IsBank p bank
    → Viewed p prg addr bank
unfolding Viewed analysis_view is_banked banked_view prg_bank checked_bank_offset fixed_prg
    bank_count mapped_offset
analysis_view-mapped prg addr bank (nrom_one e) l h b = (prg, _, refl, refl, refl)
analysis_view-mapped prg addr bank (nrom_two e) l h b = (prg, _, refl, refl, refl)
analysis_view-mapped prg addr bank (cnrom_one k c e) l h b = (prg, _, refl, refl, refl)
analysis_view-mapped prg addr bank (cnrom_two k c e) l h b = (prg, _, refl, refl, refl)
analysis_view-mapped prg addr bank (uxrom_banks_of {n} c banks e) l h b =
    rw (in_range-ok n bank (b refl))
      (_, _, refl, refl, two_banks-Shows prg bank addr banks e (b refl) l h)
analysis_view-mapped prg addr bank (mmc1_banks_of {n} banks e) l h b =
    rw (in_range-ok n bank (b refl))
      (_, _, refl, refl, two_banks-Shows prg bank addr banks e (b refl) l h)

-- The NROM-shaped analysis view of a PRG under a policy that serves it exists for every bank that
-- exists, and reading it the way an NROM of its length is read gives at every address from $8000 to
-- $FFFF the byte that the address map of the policy points to.
pub analysis_view-cpu_to_prg_offset :
    {p : MapperPolicy} (prg : List ℕ) (addr bank : ℕ)
    → Serves (length prg) p
    → 0x8000 ≤ addr
    → addr < 65536
    → IsBank p bank
    → (view : List ℕ) × (o : ℕ) × (analysis_view p prg bank ≡ ok view)
      × (cpu_to_prg_offset p addr bank ≡ ok (some o))
      × (get_elem? view (nrom_offset (length view) addr) ≡ get_elem? prg o)
unfolding Viewed cpu_to_prg_offset
analysis_view-cpu_to_prg_offset prg addr bank s low high b =
    let (view, o, made, found, shown) = analysis_view-mapped prg addr bank s low high b in
    (view, o, made, ground (arith, found), shown)
