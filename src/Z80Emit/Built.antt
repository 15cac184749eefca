-- ===== src/Z80Emit/Built.antt =====
-- crates/z80_emit/src/lib.rs: any sequence of the calls that build a program keeps its patches where
-- they belong.
use Prim.Native.String.{String}
use text.Mathlib.Text.{◌==◌ as same_text}
use nes_to_sms.Base.{
  ℕ, suc, ◌+◌, ◌-◌, ◌/◌, ◌%◌, ◌<◌, ◌==◌, ◌≡◌, ap, arith, u8, Bool, true, false, Option, none, some,
  List, [], ◌∷◌, ◌++◌, length, length-append, if◌then◌else◌,
}
use nes_to_sms.Z80Emit.Section
use nes_to_sms.Z80Emit.Program.{
  Program, current_section, contains, position, section, label, org, comment, reference,
  set_section_placement, set_section_project_data_placement, prepopulate_label_section,
  set_wide_continuation_banks,
}
use nes_to_sms.Z80Emit.Encode.{
  emit_bytes, emit_jp_like, emit_jr_like, data_bytes, word_label, bank_label, dispatch_entry, align,
  zeros,
}
use nes_to_sms.Z80Emit.Sections.{section_at-append}
use nes_to_sms.Z80Emit.Placed.{
  Placed, Fits-grown, sec-Placed, emit_bytes-Placed, label-Placed, emit_jp_like-Placed,
  emit_jr_like-Placed,
}

-- An index that a search found, if it found one.
abbrev Below : Option ℕ → ℕ → Type 0
Below none n = Unit
Below (some i) n = i < n

position-Below :
    (name : String) (sections : List Section.Section)
    → Below (position name sections) (length sections)
position-Below name [] = tt
position-Below name (s ∷ sections) =
    next (same_text s.name name) (position name sections) (position-Below name sections)
  where
    next :
        (b : Bool) (o : Option ℕ)
        → Below o (length sections)
        → Below
            (if b then some 0 else elim o [ none ↦ none | some i ↦ some (suc i) ])
            (suc (length sections))
    next true o h = omega arith
    next false none h = tt
    next false (some i) h = omega arith

section-Placed : (name : String) (p : Program) → Placed p → Placed (section name p)
unfolding section
section-Placed name p h = chosen (position name p.sections) (position-Below name p.sections)
  where
    more : length (p.sections ++ Section.new name ∷ []) ≡ length p.sections + 1
    more = length-append p.sections _

    chosen :
        (o : Option ℕ)
        → Below o (length p.sections)
        → Placed (elim o [
          | some idx ↦ record p { current = idx }
          | none ↦ record p {
            sections = p.sections ++ Section.new name ∷ [];
            current = length p.sections;
          }
        ])
    chosen (some i) b = record {
      current_lt = b;
      fit = h.fit;
      ordered = h.ordered;
      addresses = h.addresses;
    }
    chosen none b = record {
      current_lt = omega (arith, more);
      fit =
          Fits-grown p.sections _ p.patches (omega (arith, more))
            (λ j hj.
              omega
                (arith, ap Section.len (section_at-append j p.sections (Section.new name ∷ []) hj)))
            h.fit;
      ordered = h.ordered;
      addresses = h.addresses;
    }

prepopulated-Placed :
    (snapshot : List (String × ℕ)) (p : Program)
    → Placed p
    → Placed (prepopulate_label_section snapshot p)
unfolding prepopulate_label_section
prepopulated-Placed [] p h = h
prepopulated-Placed ((name, idx) ∷ snapshot) p h =
    prepopulated-Placed snapshot _ (kept (contains name p.label_section))
  where
    kept :
        (b : Bool)
        → Placed (if b then p else record p { label_section = (name, idx) ∷ p.label_section })
    kept true = h
    kept false = record {
      current_lt = h.current_lt;
      fit = h.fit;
      ordered = h.ordered;
      addresses = h.addresses;
    }

align-Placed : (n : ℕ) (p : Program) → Placed p → Placed (align n p)
unfolding align
align-Placed n p h = padded (Section.len (current_section p) % n == 0)
  where
    padded :
        (b : Bool)
        → Placed (if b then p else emit_bytes (zeros (n - Section.len (current_section p) % n)) p)
    padded true = h
    padded false = emit_bytes-Placed (zeros (n - Section.len (current_section p) % n)) p h

reference-Placed : (name : String) (p : Program) → Placed p → Placed (reference name p)
reference-Placed name p h = record {
  current_lt = h.current_lt;
  fit = h.fit;
  ordered = h.ordered;
  addresses = h.addresses;
}

-- The calls that build a program. Each method that encodes an instruction is one of the three that
-- emit.
pub data Op : Type 0 where
  at_section : String → Op
  at_placement at_data_placement : (bank slot : ℕ) → Op
  at_org : ℕ → Op
  at_comment : Op
  at_label : String → Op
  at_snapshot : List (String × ℕ) → Op
  at_wide : Bool → Op
  at_bytes : List ℕ → Op
  at_jp at_jr : ℕ → String → Op
  at_data : Option String → List ℕ → Op
  at_word_label at_bank_label : String → Op
  at_entry : (nes_addr nes_bank : ℕ) → String → Op
  at_align : ℕ → Op

unfoldable pub perform : Op → Program → Program
perform (at_section name) = section name
perform (at_placement bank slot) = set_section_placement bank slot
perform (at_data_placement bank slot) = set_section_project_data_placement bank slot
perform (at_org addr) = org addr
perform at_comment = comment
perform (at_label name) = label name
perform (at_snapshot snapshot) = prepopulate_label_section snapshot
perform (at_wide enabled) = set_wide_continuation_banks enabled
perform (at_bytes bytes) = emit_bytes bytes
perform (at_jp op name) = emit_jp_like op name
perform (at_jr op name) = emit_jr_like op name
perform (at_data name bytes) = data_bytes name bytes
perform (at_word_label name) = word_label name
perform (at_bank_label name) = bank_label name
perform (at_entry addr bank name) = dispatch_entry addr bank name
perform (at_align n) = align n

perform-Placed : (op : Op) (p : Program) → Placed p → Placed (perform op p)
unfolding perform set_section_placement set_section_project_data_placement org comment data_bytes
    word_label bank_label dispatch_entry set_wide_continuation_banks
perform-Placed (at_section name) p h = section-Placed name p h
perform-Placed (at_placement bank slot) p h = sec-Placed _ p (λ s. omega arith) h
perform-Placed (at_data_placement bank slot) p h = sec-Placed _ p (λ s. omega arith) h
perform-Placed (at_org addr) p h = sec-Placed _ p (λ s. omega arith) h
perform-Placed at_comment p h = sec-Placed _ p (λ s. omega arith) h
perform-Placed (at_label name) p h = label-Placed name p h
perform-Placed (at_snapshot snapshot) p h = prepopulated-Placed snapshot p h
perform-Placed (at_wide enabled) p h = record {
  current_lt = h.current_lt;
  fit = h.fit;
  ordered = h.ordered;
  addresses = h.addresses;
}
perform-Placed (at_bytes bytes) p h = emit_bytes-Placed bytes p h
perform-Placed (at_jp op name) p h = emit_jp_like-Placed op name p h
perform-Placed (at_jr op name) p h = emit_jr_like-Placed op name p h
perform-Placed (at_data none bytes) p h = emit_bytes-Placed bytes p h
perform-Placed (at_data (some name) bytes) p h = emit_bytes-Placed bytes _ (label-Placed name p h)
perform-Placed (at_word_label name) p h =
    reference-Placed name _ (emit_bytes-Placed (0 ∷ 0 ∷ []) p h)
perform-Placed (at_bank_label name) p h = reference-Placed name _ (emit_bytes-Placed (0 ∷ []) p h)
perform-Placed (at_entry addr bank name) p h =
    reference-Placed name _
      (emit_bytes-Placed (u8 addr ∷ u8 (addr / 256) ∷ bank ∷ 0 ∷ 0 ∷ 0 ∷ []) p h)
perform-Placed (at_align n) p h = align-Placed n p h

unfoldable pub run : List Op → Program → Program
unfolding perform
run [] p = p
run (op ∷ ops) p = run ops (perform op p)

-- After any sequence of calls on an empty program, the current section exists, every patch lies in the
-- bytes of its section, the patches of a section lie one behind the other in the order in which they
-- were made, and every label is a 16-bit address.
pub run-Placed : (ops : List Op) (p : Program) → Placed p → Placed (run ops p)
unfolding run
run-Placed [] p h = h
run-Placed (op ∷ ops) p h = run-Placed ops _ (perform-Placed op p h)
