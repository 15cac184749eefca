-- ===== src/Z80Emit/Finish.antt =====
-- crates/z80_emit/src/lib.rs: `unresolved_labels` and `finish`, which applies the patches. The listing
-- is left out; whether `Z80_ALLOW_DUP` is set is an argument.
use Prim.Native.String.{String}
use text.Mathlib.Text.{◌==◌ as same_text}
use nes_to_sms.Base.{
  ℕ, ◌+◌, ◌-◌, ◌/◌, ◌==◌, leb, u8, max, Bool, not, ◌&&◌, none, some, List, [], ◌∷◌, ◌++◌, length,
  set, Result, ok, err, ok_or, refuse_if, ◌>>=◌, ◌>>◌, if◌then◌else◌,
}
use nes_to_sms.Z80Emit.Section
use nes_to_sms.Z80Emit.Program.{
  Program, Patch, PatchKind, abs16, rel8, at, section_at, contains, lookup,
}

-- A displacement below 0 is given by its sign and its size.
pub data EmitError : Type 0 where
  unresolved_label duplicate_label : String → EmitError
  jr_out_of_range : (label : String) (target end : ℕ) → EmitError
  invalid_continuation_address : (label : String) (addr : ℕ) → EmitError

pub record SectionOut : Type 0 where
  pub name : String
  pub org : ℕ
  pub bytes : List ℕ

pub record Build : Type 0 where
  pub bytes : List ℕ
  pub sections : List SectionOut
  pub project_data_bank_count : ℕ

-- The labels of patches and references that no `label` call has defined.
unfoldable pub undefined : List (String × ℕ) → List String → List String
undefined labels [] = []
undefined labels (name ∷ names) =
    let rest = undefined labels names in if contains name labels then rest else name ∷ rest

abbrev pub patch_labels : List Patch → List String
patch_labels [] = []
patch_labels (q ∷ patches) = q.label ∷ patch_labels patches

-- The source sorts them and drops repetitions.
unfoldable pub unresolved_labels : Program → List String
unfolding undefined
unresolved_labels p = undefined p.labels (patch_labels p.patches ++ p.referenced_labels)

unfoldable pub check_continuations : List (String × ℕ) → List String → Result EmitError (Unit {0})
check_continuations labels [] = ok tt
check_continuations labels (name ∷ names) =
    let rest = check_continuations labels names in
    ok_or (lookup name labels) (unresolved_label name) >>= λ addr.
    refuse_if (leb 0x8000 addr) (invalid_continuation_address name addr) >> rest

unfoldable pub check_duplicates : Bool → List String → Result EmitError (Unit {0})
check_duplicates allow_dup [] = ok tt
check_duplicates allow_dup (name ∷ names) = refuse_if (not allow_dup) (duplicate_label name)

-- `sec.bytes[offset] = v`.
abbrev pub store : (idx offset v : ℕ) → List Section.Section → List Section.Section
store idx offset v = at idx (λ s. record s { bytes = set s.bytes offset v })

-- `delta as i8 as u8` for the displacement `target - end` of -128 to 127.
abbrev pub displacement : (target end : ℕ) → ℕ
displacement target end = u8 (target + 256 - end)

unfoldable pub apply_kind :
    String
    → (idx addr : ℕ) → PatchKind
    → List Section.Section
    → Result EmitError (List Section.Section)
apply_kind name idx addr (abs16 offset) sections =
    ok (store idx (offset + 1) (u8 (addr / 256)) (store idx offset (u8 addr) sections))
apply_kind name idx addr (rel8 offset) sections =
    let end = (section_at idx sections).org + offset + 1 in
    if leb end (addr + 128) && leb addr (end + 127)
    then ok (store idx offset (displacement addr end) sections)
    else err (jr_out_of_range name addr end)

unfoldable pub apply_patch :
    List (String × ℕ) → Patch → List Section.Section → Result EmitError (List Section.Section)
unfolding apply_kind
apply_patch labels q sections = ok_or (lookup q.label labels) (unresolved_label q.label) >>= λ addr.
    apply_kind q.label q.section_idx addr q.kind sections

unfoldable pub apply_patches :
    List (String × ℕ) → List Patch → List Section.Section → Result EmitError (List Section.Section)
apply_patches labels [] sections = ok sections
apply_patches labels (q ∷ patches) sections =
    apply_patch labels q sections >>= apply_patches labels patches

-- An empty first section is left out.
abbrev pub is_dropped : Section.Section → Bool
is_dropped s = same_text s.name "__default__" && (length s.bytes == 0)

abbrev pub kept : List Section.Section → List SectionOut
kept [] = []
kept (s ∷ sections) =
    let rest = kept sections in
    if is_dropped s then rest else record { name = s.name; org = s.org; bytes = s.bytes } ∷ rest

abbrev pub all_bytes : List SectionOut → List ℕ
all_bytes [] = []
all_bytes (s ∷ sections) = s.bytes ++ all_bytes sections

-- One bank more than the last that a placed section of project data asks for.
abbrev pub bank_count : List Section.Section → ℕ
bank_count [] = 0
bank_count (s ∷ sections) =
    let rest = bank_count sections in
    if is_dropped s && (s.asm_lines == 0) then rest else elim s.placement [
      | none ↦ rest
      | some p ↦ if p.project_data then max (p.bank + 1) rest else rest
    ]

unfoldable pub finish : (allow_dup : Bool) → Program → Result EmitError Build
unfolding check_continuations check_duplicates apply_patches
finish allow_dup p =
    check_continuations p.labels p.checked_continuations
    >> (check_duplicates allow_dup p.dup_labels
        >> (apply_patches p.labels p.patches p.sections >>= λ sections. ok record {
          bytes = all_bytes (kept sections);
          sections = kept sections;
          project_data_bank_count = bank_count sections;
        }))
