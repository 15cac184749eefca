-- ===== src/Z80Emit/Tests.antt =====
-- crates/z80_emit/src/lib.rs: a small program, built and finished.
use nes_to_sms.Base.{ℕ, ◌≡◌, refl, false, List, [], ◌∷◌, ok}
use nes_to_sms.Z80Emit.Section
use nes_to_sms.Z80Emit.Program.{new, label}
use nes_to_sms.Z80Emit.Encode.{emit_jp_like, emit_jr_like}
use nes_to_sms.Z80Emit.Finish.{Build, apply_patch, kept, finish}
use nes_to_sms.Z80Emit.Sections.{byte_at}
use nes_to_sms.Z80Emit.Placed.{AllOf, Placed, new-Placed}
use nes_to_sms.Z80Emit.Patching.{Resolved}
use nes_to_sms.Z80Emit.Built.{Op, at_label, at_bytes, at_jp, at_jr, run, run-Placed}
use nes_to_sms.Z80Emit.Linking.{Outside, finish-Resolved}

-- loop: nop; jr loop; jp end; end:
abbrev ops : List Op
ops =
    at_label "loop"
    ∷ at_bytes (0x00 ∷ [])
    ∷ at_jr 0x18 "loop"
    ∷ at_jp 0xc3 "end"
    ∷ at_label "end"
    ∷ []

abbrev code : List ℕ
code = 0x00 ∷ 0x18 ∷ 0xfd ∷ 0xc3 ∷ 0x06 ∷ 0x00 ∷ []

abbrev build : Build
build = record {
  bytes = code;
  sections = record { name = "__default__"; org = 0; bytes = code } ∷ [];
  project_data_bank_count = 0;
}

finished : finish false (run ops new) ≡ ok build
unfolding run new label emit_jp_like emit_jr_like finish apply_patch
finished = refl

finish-Resolved_example :
    let p = run ops new in
    (out : List Section.Section) × (build.sections ≡ kept out)
    × AllOf (Resolved p.labels out) p.patches
    × ((t o : ℕ) → AllOf (Outside t o) p.patches → byte_at t o out ≡ byte_at t o p.sections)
finish-Resolved_example = finish-Resolved false ops build finished

run-Placed_example : Placed (run ops new)
run-Placed_example = run-Placed ops new new-Placed
