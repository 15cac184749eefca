-- ===== src/Z80Emit/Program.antt =====
-- crates/z80_emit/src/lib.rs: `Section`, `Program` and the helpers that put bytes, labels and patches
-- into them. Of the listing only the number of its lines is kept.
use Prim.Native.String.{String}
use text.Mathlib.Text.{◌==◌ as same_text}
use nes_to_sms.Z80Emit.Section
use nes_to_sms.Base.{
  ℕ, zero, suc, Bool, true, false, Option, none, some, List, [], ◌∷◌, ◌++◌, length, get_elem?,
  if◌then◌else◌,
}

-- `PatchKind`: the offset of a 16-bit address or of an 8-bit displacement.
pub data PatchKind : Type 0 where
  abs16 rel8 : (offset : ℕ) → PatchKind

pub record Patch : Type 0 where
  pub label : String
  pub section_idx : ℕ
  pub kind : PatchKind

pub record Program : Type 0 where
  pub sections : List Section.Section
  pub current : ℕ
  pub labels : List (String × ℕ)
  pub dup_labels : List String
  pub patches : List Patch
  pub label_counter : ℕ
  pub referenced_labels : List String
  pub label_section : List (String × ℕ)
  pub wide_continuation_banks : Bool
  pub checked_continuations : List String

-- `map.get(key)` of the last value inserted.
abbrev pub lookup : String → List (String × ℕ) → Option ℕ
lookup key [] = none
lookup key ((name, v) ∷ entries) =
    let rest = lookup key entries in if same_text key name then some v else rest

abbrev pub contains : String → List (String × ℕ) → Bool
contains key entries = elim (lookup key entries) [ none ↦ false | some v ↦ true ]

-- The element `i` of a list changed.
abbrev pub at {ℓ} : {A : Type ℓ} → ℕ → (A → A) → List A → List A
at i f [] = []
at zero f (x ∷ xs) = f x ∷ xs
at (suc i) f (x ∷ xs) = x ∷ at i f xs

abbrev pub section_at : ℕ → List Section.Section → Section.Section
section_at i sections = elim (get_elem? sections i) [ none ↦ Section.new "" | some s ↦ s ]

-- `self.sec()` with what is done to it.
abbrev pub sec : (Section.Section → Section.Section) → Program → Program
sec f p = record p { sections = at p.current f p.sections }

abbrev pub current_section : Program → Section.Section
current_section p = section_at p.current p.sections

unfoldable pub new : Program
new = record {
  sections = Section.new "__default__" ∷ [];
  current = 0;
  labels = [];
  dup_labels = [];
  patches = [];
  label_counter = 0;
  referenced_labels = [];
  label_section = [];
  wide_continuation_banks = false;
  checked_continuations = [];
}

abbrev pub position : String → List Section.Section → Option ℕ
position name [] = none
position name (s ∷ sections) =
    let rest = position name sections in
    if same_text s.name name then some 0 else elim rest [ none ↦ none | some i ↦ some (suc i) ]

unfoldable pub section : String → Program → Program
section name p = elim (position name p.sections) [
  | some idx ↦ record p { current = idx }
  | none ↦ record p { sections = p.sections ++ Section.new name ∷ []; current = length p.sections }
]

unfoldable pub set_section_placement : (bank slot : ℕ) → Program → Program
set_section_placement bank slot =
    sec
      (λ s. record s { placement = some record { bank = bank; slot = slot; project_data = false } })

unfoldable pub set_section_project_data_placement : (bank_offset slot : ℕ) → Program → Program
set_section_project_data_placement bank_offset slot = sec (λ s. record s {
  placement = some record { bank = bank_offset; slot = slot; project_data = true };
})

unfoldable pub org : ℕ → Program → Program
org addr = sec (λ s. Section.push_asm (record s { org = addr }))

unfoldable pub comment : Program → Program
comment = sec Section.push_asm

-- A second definition of a name is noted and takes the place of the first.
unfoldable pub label : String → Program → Program
label name p = sec Section.push_asm record p {
  labels = (name, Section.current_addr (current_section p)) ∷ p.labels;
  dup_labels = if contains name p.labels then p.dup_labels ++ name ∷ [] else p.dup_labels;
  label_section = (name, p.current) ∷ p.label_section;
}

unfoldable pub set_wide_continuation_banks : Bool → Program → Program
set_wide_continuation_banks enabled p = record p { wide_continuation_banks = enabled }

-- Entries of the snapshot that the program does not have yet.
unfoldable pub prepopulate_label_section : List (String × ℕ) → Program → Program
prepopulate_label_section [] p = p
prepopulate_label_section ((name, idx) ∷ snapshot) p = prepopulate_label_section snapshot (
    if contains name p.label_section
    then p
    else record p { label_section = (name, idx) ∷ p.label_section })

abbrev pub reference : String → Program → Program
reference name p = record p { referenced_labels = name ∷ p.referenced_labels }
