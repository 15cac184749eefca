-- ===== src/Z80Emit/Linking.antt =====
-- crates/z80_emit/src/lib.rs: what `finish` promises of the patches, in the words of the interpreter
-- that runs the bytes.
use Prim.Native.String.{String}
use mathlib.Core.Path.{subst}
use nes_to_sms.Base.{
  ℕ, ◌+◌, ◌<◌, ◌≤◌, ◌≡◌, ap, sym, ◌∙◌, arith, u16, Bool, ◌⊎◌, inl, List, [], ◌∷◌, ok, >>=-eq-ok,
  ok-injective,
}
use nes_to_sms.Z80Emu.Low.{sign_extend}
use nes_to_sms.Z80Emit.Section
use nes_to_sms.Z80Emit.Program.{Patch, PatchKind, abs16, rel8, section_at}
use nes_to_sms.Z80Emit.Finish.{
  Build, apply_patch, apply_patches, check_continuations, check_duplicates, kept, finish,
}
use nes_to_sms.Z80Emit.Sections.{byte_at}
use nes_to_sms.Z80Emit.Program.{new}
use nes_to_sms.Z80Emit.Patching.{Leads, Resolved, Same, apply_patch-Resolved}
use nes_to_sms.Z80Emit.Built.{Op, run, run-Placed}
use nes_to_sms.Z80Emit.Placed.{new-Placed}
use nes_to_sms.Z80Emit.Placed.{AllOf, AllOf-map, Fits, Before, Ordered, IsAddress, first, past}

-- What is written elsewhere leaves the way of a patch.
Leads-kept :
    (idx addr : ℕ) (kind : PatchKind) (before after : List Section.Section)
    → ((t : ℕ) → (section_at t after).org ≡ (section_at t before).org)
    → ((o : ℕ) → first kind ≤ o → o < past kind → byte_at idx o after ≡ byte_at idx o before)
    → Leads idx addr kind before
    → Leads idx addr kind after
Leads-kept idx addr (abs16 o) before after orgs bytes (lo, hi, a, b, w) = (
  lo,
  hi,
  bytes o (omega arith) (omega arith) ∙ a,
  bytes (o + 1) (omega arith) (omega arith) ∙ b,
  w,
)
Leads-kept idx addr (rel8 o) before after orgs bytes (d, a, w) = (
  d,
  bytes o (omega arith) (omega arith) ∙ a,
  ap (λ (b : ℕ). u16 (u16 (b + o + 1) + sign_extend d)) (orgs idx) ∙ w,
)

-- A patch behind `q` in the list leaves the bytes of `q`, wherever the two lie.
apart :
    (q r : Patch) (o : ℕ)
    → Before q r
    → first q.kind ≤ o
    → o < past q.kind
    → (r.section_idx ≡ q.section_idx → (o < first r.kind) ⊎ (past r.kind ≤ o))
apart q r o before from until e = inl (omega (arith, before (sym e)))

Fits-Same :
    (r : Patch) (before after : List Section.Section) (patches : List Patch)
    → Same r before after
    → AllOf (Fits before) patches
    → AllOf (Fits after) patches
Fits-Same r before after patches same = AllOf-map patches (λ q f. record {
  section_lt = omega (arith, f.section_lt, same.lengths);
  past_le = omega (arith, f.past_le, same.sizes q.section_idx);
})

apply_patches-Leads :
    (labels : List (String × ℕ)) (q : Patch) (addr : ℕ) (patches : List Patch)
    (sections out : List Section.Section)
    → AllOf IsAddress labels
    → AllOf (Fits sections) patches
    → AllOf (Before q) patches
    → apply_patches labels patches sections ≡ ok out
    → Leads q.section_idx addr q.kind sections
    → Leads q.section_idx addr q.kind out
unfolding apply_patches
apply_patches-Leads labels q addr [] sections out all fits befores h leads =
    subst (Leads q.section_idx addr q.kind) (ok-injective h) leads
apply_patches-Leads labels q addr (r ∷ patches) sections out all fits befores h leads =
    let (mid, applied, rest) =
      >>=-eq-ok (apply_patch labels r sections) (apply_patches labels patches) h in
    let (resolved, same) = apply_patch-Resolved labels r sections mid all fits.0 applied in
    apply_patches-Leads labels q addr patches mid out all
      (Fits-Same r sections mid patches same fits.1) befores.1 rest
      (Leads-kept q.section_idx addr q.kind sections mid same.origins
        (λ o from until. same.others q.section_idx o (apart q r o befores.0 from until)) leads)

apply_patches-Resolved :
    (labels : List (String × ℕ)) (patches : List Patch) (sections out : List Section.Section)
    → AllOf IsAddress labels
    → AllOf (Fits sections) patches
    → Ordered patches
    → apply_patches labels patches sections ≡ ok out
    → AllOf (Resolved labels out) patches
unfolding apply_patches
apply_patches-Resolved labels [] sections out all fits order h = tt
apply_patches-Resolved labels (q ∷ patches) sections out all fits order h =
    let (mid, applied, rest) =
      >>=-eq-ok (apply_patch labels q sections) (apply_patches labels patches) h in
    let ((addr, known, leads), same) =
      apply_patch-Resolved labels q sections mid all fits.0 applied in
    let fit = Fits-Same q sections mid patches same fits.1 in
    (
      (addr, known, apply_patches-Leads labels q addr patches mid out all fit order.0 rest leads),
      apply_patches-Resolved labels patches mid out all fit order.1 rest,
    )

-- An offset of a section that no patch covers.
abbrev pub Outside : (idx offset : ℕ) → Patch → Type 0
Outside idx offset q = q.section_idx ≡ idx → (offset < first q.kind) ⊎ (past q.kind ≤ offset)

apply_patches-others :
    (labels : List (String × ℕ)) (patches : List Patch) (sections out : List Section.Section)
    → AllOf IsAddress labels
    → AllOf (Fits sections) patches
    → apply_patches labels patches sections ≡ ok out
    → (t o : ℕ) → AllOf (Outside t o) patches
    → byte_at t o out ≡ byte_at t o sections
unfolding apply_patches
apply_patches-others labels [] sections out all fits h t o outside =
    ap (byte_at t o) (sym (ok-injective h))
apply_patches-others labels (q ∷ patches) sections out all fits h t o outside =
    let (mid, applied, rest) =
      >>=-eq-ok (apply_patch labels q sections) (apply_patches labels patches) h in
    let (resolved, same) = apply_patch-Resolved labels q sections mid all fits.0 applied in
    apply_patches-others labels patches mid out all (Fits-Same q sections mid patches same fits.1)
      rest t o outside.1
    ∙ same.others t o outside.0

-- Where a program that any sequence of calls has built is finished without an error, the sections of
-- the build are those of the program with the patches applied, the first left out if it is empty: each
-- patch has a label that is defined, and at its place stands either the address of the label as a word,
-- or a displacement that the interpreter's relative jump takes to the address of the label; and no byte
-- outside the patches has changed.
pub finish-Resolved :
    (allow_dup : Bool) (ops : List Op) (build : Build)
    → finish allow_dup (run ops new) ≡ ok build
    → let p = run ops new in
      (out : List Section.Section) × (build.sections ≡ kept out)
      × AllOf (Resolved p.labels out) p.patches
      × ((t o : ℕ) → AllOf (Outside t o) p.patches → byte_at t o out ≡ byte_at t o p.sections)
unfolding finish
finish-Resolved allow_dup ops build h =
    let p = run ops new in
    let placed = run-Placed ops new new-Placed in
    let (x, checked, h1) = >>=-eq-ok (check_continuations p.labels p.checked_continuations) _ h in
    let (y, unique, h2) = >>=-eq-ok (check_duplicates allow_dup p.dup_labels) _ h1 in
    let (out, applied, made) = >>=-eq-ok (apply_patches p.labels p.patches p.sections) _ h2 in
    (
      out,
      ap Build.sections (sym (ok-injective made)),
      apply_patches-Resolved p.labels p.patches p.sections out placed.addresses placed.fit
          placed.ordered applied,
      apply_patches-others p.labels p.patches p.sections out placed.addresses placed.fit applied,
    )
