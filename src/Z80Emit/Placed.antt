-- ===== src/Z80Emit/Placed.antt =====
-- crates/z80_emit/src/lib.rs: the patches of a program lie in the bytes of their sections, one after the
-- other, and every label is a 16-bit address; every operation keeps this.
use Prim.Native.String.{String}
use nes_to_sms.Base.{ℕ, ◌+◌, ◌<◌, ◌≤◌, ◌≡◌, refl, ap, ◌∙◌, arith, List, [], ◌∷◌, ◌++◌, length}
use nes_to_sms.Z80Emit.Section
use nes_to_sms.Z80Emit.Program.{
  Program, Patch, PatchKind, abs16, rel8, at, sec, current_section, new, label,
}
use nes_to_sms.Z80Emit.Encode.{emit_bytes, patched, emit_jp_like, emit_jr_like}
use nes_to_sms.Z80Emit.Sections.{size, length-at, section_at-at_same, size-at, len-push_bytes}

abbrev pub AllOf {ℓ m} : {A : Type ℓ} → (A → Type m) → List A → Type m
AllOf P [] = Unit
AllOf P (x ∷ xs) = P x × AllOf P xs

pub AllOf-map {ℓ m n} :
    {A : Type ℓ} {P : A → Type m} {Q : A → Type n} (xs : List A)
    → ((x : A) → P x → Q x)
    → AllOf P xs
    → AllOf Q xs
AllOf-map [] k h = tt
AllOf-map (x ∷ xs) k h = (k x h.0, AllOf-map xs k h.1)

pub AllOf-append {ℓ m} :
    {A : Type ℓ} (P : A → Type m) (xs : List A) (y : A) → AllOf P xs → P y → AllOf P (xs ++ y ∷ [])
AllOf-append P [] y h p = (p, tt)
AllOf-append P (x ∷ xs) y h p = (h.0, AllOf-append P xs y h.1 p)

-- The bytes of a patch, from `first` on and before `past`.
abbrev pub first : PatchKind → ℕ
first (abs16 offset) = offset
first (rel8 offset) = offset

abbrev pub past : PatchKind → ℕ
past (abs16 offset) = offset + 2
past (rel8 offset) = offset + 1

pub record Fits (sections : List Section.Section) (q : Patch) : Type 0 where
  pub section_lt : q.section_idx < length sections
  pub past_le : past q.kind ≤ size q.section_idx sections

abbrev pub Before : Patch → Patch → Type 0
Before q r = q.section_idx ≡ r.section_idx → past q.kind ≤ first r.kind

abbrev pub Ordered : List Patch → Type 0
Ordered [] = Unit
Ordered (q ∷ patches) = AllOf (Before q) patches × Ordered patches

Ordered-append :
    (patches : List Patch) (r : Patch)
    → Ordered patches
    → AllOf (λ q. Before q r) patches
    → Ordered (patches ++ r ∷ [])
Ordered-append [] r h b = (tt, tt)
Ordered-append (q ∷ patches) r h b =
    (AllOf-append (Before q) patches r h.0 b.0, Ordered-append patches r h.1 b.1)

abbrev pub IsAddress : String × ℕ → Type 0
IsAddress entry = entry.1 < 65536

pub record Placed (p : Program) : Type 0 where
  pub current_lt : p.current < length p.sections
  pub fit : AllOf (Fits p.sections) p.patches
  pub ordered : Ordered p.patches
  pub addresses : AllOf IsAddress p.labels

pub new-Placed : Placed new
unfolding new
new-Placed = record { current_lt = omega arith; fit = tt; ordered = tt; addresses = tt }

-- Sections that are at least as long, and not fewer.
pub Fits-grown :
    (xs ys : List Section.Section) (patches : List Patch)
    → length xs ≤ length ys
    → ((j : ℕ) → j < length xs → size j xs ≤ size j ys)
    → AllOf (Fits xs) patches
    → AllOf (Fits ys) patches
Fits-grown xs ys patches hl hs = AllOf-map patches (λ q f. record {
  section_lt = omega (arith, f.section_lt);
  past_le = omega (arith, f.past_le, hs q.section_idx f.section_lt);
})

pub sec-Placed :
    (f : Section.Section → Section.Section) (p : Program)
    → ((s : Section.Section) → Section.len s ≤ Section.len (f s))
    → Placed p
    → Placed (sec f p)
sec-Placed f p grows h =
    let same = length-at p.current f p.sections in
    record {
      current_lt = omega (arith, same, h.current_lt);
      fit =
          Fits-grown p.sections _ p.patches (omega (arith, same))
            (λ j hj. size-at p.current j f p.sections grows) h.fit;
      ordered = h.ordered;
      addresses = h.addresses;
    }

pub emit_bytes-Placed : (bytes : List ℕ) (p : Program) → Placed p → Placed (emit_bytes bytes p)
emit_bytes-Placed bytes p h = sec-Placed _ p (λ s. omega (arith, len-push_bytes bytes s)) h

pub label-Placed : (name : String) (p : Program) → Placed p → Placed (label name p)
unfolding label
label-Placed name p h =
    let grown = sec-Placed Section.push_asm p (λ s. omega arith) h in
    record {
      current_lt = grown.current_lt;
      fit = grown.fit;
      ordered = grown.ordered;
      addresses = (omega arith, h.addresses);
    }

-- A patch in the bytes that an instruction has just added.
patched-Placed :
    (kind : ℕ → PatchKind) (bytes : List ℕ) (name : String) (p : Program)
    → ((k : ℕ) → first (kind k) ≡ k)
    → ((k : ℕ) → past (kind (k + 1)) ≡ k + length bytes)
    → Placed p
    → Placed (record (emit_bytes bytes p) { patches = p.patches ++ patched kind name p ∷ [] })
patched-Placed kind bytes name p starts ends h =
    let grown = emit_bytes-Placed bytes p h in
    let f = λ (s : Section.Section). Section.push_asm (Section.push_bytes bytes s) in
    let len = Section.len (current_section p) in
    let here : size p.current (at p.current f p.sections) ≡ len + length bytes =
      ap Section.len (section_at-at_same p.current f p.sections h.current_lt)
      ∙ len-push_bytes bytes (current_section p) in
    record {
      current_lt = grown.current_lt;
      fit =
          AllOf-append _ p.patches _ grown.fit
            record { section_lt = grown.current_lt; past_le = omega (arith, here, ends len) };
      ordered = Ordered-append p.patches _ h.ordered (
          AllOf-map p.patches
            (λ q fits e.
              let same : size q.section_idx p.sections ≡ len =
                ap (λ (i : ℕ). size i p.sections) e in
              omega (arith, fits.past_le, same, starts (len + 1)))
            h.fit);
      addresses = h.addresses;
    }

pub emit_jp_like-Placed :
    (op : ℕ) (name : String) (p : Program) → Placed p → Placed (emit_jp_like op name p)
unfolding emit_jp_like
emit_jp_like-Placed op name p =
    patched-Placed abs16 (op ∷ 0 ∷ 0 ∷ []) name p (λ k. refl) (λ k. omega arith)

pub emit_jr_like-Placed :
    (op : ℕ) (name : String) (p : Program) → Placed p → Placed (emit_jr_like op name p)
unfolding emit_jr_like
emit_jr_like-Placed op name p =
    patched-Placed rel8 (op ∷ 0 ∷ []) name p (λ k. refl) (λ k. omega arith)
