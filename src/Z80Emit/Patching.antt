-- ===== src/Z80Emit/Patching.antt =====
-- crates/z80_emit/src/lib.rs: what one patch does to the sections, in the words of the interpreter that
-- runs the bytes.
use Prim.Native.String.{String}
use mathlib.Core.Path.{subst}
use nes_to_sms.Base.{
  ℕ, ◌+◌, ◌/◌, ◌<◌, ◌≤◌, leb, ◌≡◌, refl, ap, ◌∙◌, arith, u8, u16, Bool, true, false, ◌&&◌, ◌⊎◌, inl,
  inr, Option, none, some, List, [], ◌∷◌, length, ok, err, ok_or, >>=-eq-ok, ok-injective,
  if◌then◌else◌,
}
use nes_to_sms.Z80Emu.Cpu.{word}
use nes_to_sms.Z80Emu.Low.{sign_extend}
use nes_to_sms.Z80Emu.Stack.{word-bytes}
use nes_to_sms.Z80Emit.Section
use nes_to_sms.Z80Emit.Program.{Patch, PatchKind, abs16, rel8, section_at, lookup}
use nes_to_sms.Z80Emit.Finish.{
  EmitError, unresolved_label, store, displacement, apply_kind, apply_patch,
}
use nes_to_sms.Z80Emit.Sections.{
  byte_at, size, length-store, byte_at-store_same, byte_at-store_other, size-store, org-store,
}
use nes_to_sms.Z80Emit.Placed.{AllOf, Fits, IsAddress, first, past}

-- The bytes of a patch lead to the address: a word that is the address, or a displacement that
-- the interpreter adds to the program counter behind it.
abbrev pub Leads : (idx addr : ℕ) → PatchKind → List Section.Section → Type 0
Leads idx addr (abs16 offset) sections =
    (lo : ℕ) × (hi : ℕ) × (byte_at idx offset sections ≡ some lo)
    × (byte_at idx (offset + 1) sections ≡ some hi)
    × (word hi lo ≡ addr)
Leads idx addr (rel8 offset) sections =
    (d : ℕ) × (byte_at idx offset sections ≡ some d)
    × (u16 (u16 ((section_at idx sections).org + offset + 1) + sign_extend d) ≡ addr)

abbrev pub Resolved : List (String × ℕ) → List Section.Section → Patch → Type 0
Resolved labels sections q =
    (addr : ℕ) × (lookup q.label labels ≡ some addr) × Leads q.section_idx addr q.kind sections

-- What a patch leaves of the sections.
pub record Same (q : Patch) (before after : List Section.Section) : Type 0 where
  pub lengths : length after ≡ length before
  pub sizes : (t : ℕ) → size t after ≡ size t before
  pub origins : (t : ℕ) → (section_at t after).org ≡ (section_at t before).org
  pub others :
      (t o : ℕ)
      → (q.section_idx ≡ t → (o < first q.kind) ⊎ (past q.kind ≤ o))
      → byte_at t o after ≡ byte_at t o before

lookup-lt :
    (key : String) (labels : List (String × ℕ)) (addr : ℕ)
    → AllOf IsAddress labels
    → lookup key labels ≡ some addr
    → addr < 65536
lookup-lt key [] addr all h = absurd (ground arith)
lookup-lt key ((name, v) ∷ labels) addr all h = ground (arith, lookup-lt key labels addr all.1)

if-ok :
    {E A : Type 0} (c : Bool) (x : A) (e : E) {out : A}
    → (if c then ok x else err e) ≡ ok out
    → (c ≡ true) × (x ≡ out)
if-ok true x e {out} h = (refl, ok-injective h)
if-ok false x e h = cc

stored-Same :
    (name : String) (idx o v : ℕ) (sections : List Section.Section)
    → Same
        (record { label = name; section_idx = idx; kind = rel8 o })
        sections
        (store idx o v sections)
stored-Same name idx o v sections = record {
  lengths = length-store idx o v sections;
  sizes = λ t. size-store idx o v t sections;
  origins = λ t. org-store idx o v t sections;
  others = λ t q outside.
      byte_at-store_other idx o v t q sections
        (λ e same. elim (outside e) [ inl below ↦ omega arith | inr above ↦ omega arith ]);
}

twice-Same :
    (name : String) (idx o lo hi : ℕ) (sections : List Section.Section)
    → Same
        (record { label = name; section_idx = idx; kind = abs16 o })
        sections
        (store idx (o + 1) hi (store idx o lo sections))
twice-Same name idx o lo hi sections =
    let once = store idx o lo sections in
    record {
      lengths = length-store idx (o + 1) hi once ∙ length-store idx o lo sections;
      sizes = λ t. size-store idx (o + 1) hi t once ∙ size-store idx o lo t sections;
      origins = λ t. org-store idx (o + 1) hi t once ∙ org-store idx o lo t sections;
      others = λ t q outside.
          byte_at-store_other idx (o + 1) hi t q once
            (λ e same. elim (outside e) [ inl below ↦ omega arith | inr above ↦ omega arith ])
          ∙ byte_at-store_other idx o lo t q sections
              (λ e same. elim (outside e) [ inl below ↦ omega arith | inr above ↦ omega arith ]);
    }

jump-back :
    (end addr : ℕ)
    → addr < 65536
    → (leb end (addr + 128) && leb addr (end + 127)) ≡ true
    → u16 (u16 end + sign_extend (displacement addr end)) ≡ addr
jump-back end addr ha h = ground arith

apply_kind-Leads :
    (name : String) (idx addr : ℕ) (kind : PatchKind) (sections out : List Section.Section)
    → idx < length sections
    → past kind ≤ size idx sections
    → addr < 65536
    → apply_kind name idx addr kind sections ≡ ok out
    → Leads idx addr kind out
      × Same (record { label = name; section_idx = idx; kind = kind }) sections out
unfolding apply_kind
apply_kind-Leads name idx addr (abs16 o) sections out hi hp ha h =
    let lo = u8 addr in
    let high = u8 (addr / 256) in
    let once = store idx o lo sections in
    let made : store idx (o + 1) high once ≡ out = ok-injective h in
    subst
      (λ t.
        Leads idx addr (abs16 o) t
        × Same (record { label = name; section_idx = idx; kind = abs16 o }) sections t)
      made
      (
        (
          lo,
          high,
          byte_at-store_other idx (o + 1) high idx o once (λ e same. omega arith)
              ∙ byte_at-store_same idx o lo sections hi (omega arith),
          byte_at-store_same idx (o + 1) high once (omega (arith, length-store idx o lo sections))
              (omega (arith, size-store idx o lo idx sections)),
          word-bytes addr ha,
        ),
        twice-Same name idx o lo high sections,
      )
apply_kind-Leads name idx addr (rel8 o) sections out hi hp ha h =
    let end = (section_at idx sections).org + o + 1 in
    let d = displacement addr end in
    let (near, made) =
      if-ok (leb end (addr + 128) && leb addr (end + 127)) (store idx o d sections) _ h in
    subst
      (λ t.
        Leads idx addr (rel8 o) t
        × Same (record { label = name; section_idx = idx; kind = rel8 o }) sections t)
      made
      (
        (
          d,
          byte_at-store_same idx o d sections hi (omega arith),
          ap (λ (b : ℕ). u16 (u16 (b + o + 1) + sign_extend d)) (org-store idx o d idx sections)
              ∙ jump-back end addr ha near,
        ),
        stored-Same name idx o d sections,
      )

pub apply_patch-Resolved :
    (labels : List (String × ℕ)) (q : Patch) (sections out : List Section.Section)
    → AllOf IsAddress labels
    → Fits sections q
    → apply_patch labels q sections ≡ ok out
    → Resolved labels out q × Same q sections out
unfolding apply_patch
apply_patch-Resolved labels q sections out all fits h =
    let (addr, e, applied) =
      >>=-eq-ok (ok_or (lookup q.label labels) (unresolved_label q.label))
        (λ addr. apply_kind q.label q.section_idx addr q.kind sections) h in
    let known = found_label (lookup q.label labels) _ addr e in
    let (leads, same) =
      apply_kind-Leads q.label q.section_idx addr q.kind sections out fits.section_lt fits.past_le
        (lookup-lt q.label labels addr all known) applied in
    ((addr, known, leads), same)
  where
    found_label : (o : Option ℕ) (e : EmitError) (addr : ℕ) → ok_or o e ≡ ok addr → o ≡ some addr
    found_label none e addr h = cc
    found_label (some v) e addr h = ap some (ok-injective h)
